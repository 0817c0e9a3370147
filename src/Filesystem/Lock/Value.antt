-- ===== src/Filesystem/Lock/Value.antt =====
-- filesystem.py: the lock around an operation returns what the operation returns, or raises.
use arjim.Base.{ℕ}
use arjim.Runtime.{Runtime}
use arjim.Effects.{FilePath, Os, M}
use arjim.Effects.Returns.{Returns, Returns-bind, Returns-finally}
use arjim.Filesystem.{TargetHandle}
use arjim.Filesystem.Lock.{with_lock}

pub with_lock-Returns {ℓ} :
    {A : Type ℓ} {F : A → Type 0} (rt : Runtime) (os : Os) (w : FilePath) (h : TargetHandle)
    (timeout : ℕ) (body : M A)
    → Returns F body
    → Returns F (with_lock rt os w h timeout body)
unfolding with_lock
with_lock-Returns rt os w h timeout body k = search (Returns-bind, Returns-finally)
