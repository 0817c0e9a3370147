-- ===== src/Dispatch/Chain/Followers.antt =====
-- chain.py: the table of the followers, and lists of distinct job ids.
use arjim.Base.{
  suc, ◌≤◌, String, Option, none, some, Bool, true, false, ◌≡◌, refl, sym, ap, ◌∙◌, List, [], ◌∷◌,
  map, if◌then◌else◌, ◌==◌, string_eq, length, contains, All, arith, eq_iff, beq_self,
}
use mathlib.Core.Path.{subst}
use arjim.Base.Table.{Table, select, select-upsert}
use arjim.Dispatch.Chain.{Job, truthy_follows, add_follower, followers_of}

-- No two texts are equal.
unfoldable pub Different : List String → Type 0
Different [] = Unit {0}
Different (k ∷ keys) = (contains keys k ≡ false) × Different keys

abbrev pub ids : List Job → List String
ids records = map (λ r. r.job_id) records

remove : String → List String → List String
remove k [] = []
remove k (x ∷ xs) = if k == x then xs else x ∷ remove k xs

length-remove :
    (k : String) (xs : List String) → contains xs k ≡ true → suc (length (remove k xs)) ≡ length xs
unfolding remove
length-remove k [] h = cc
length-remove k (x ∷ xs) h = ground (arith, length-remove k xs)

contains-remove :
    (k t : String) (xs : List String)
    → (t == k) ≡ false
    → contains xs t ≡ true
    → contains (remove k xs) t ≡ true
unfolding remove
contains-remove k t [] d h = cc
contains-remove k t (x ∷ xs) d h =
    ground (arith, eq_iff k x, eq_iff t x, eq_iff t k, contains-remove k t xs)

different_from :
    (keys : List String) (k t : String)
    → contains keys k ≡ false
    → contains keys t ≡ true
    → (t == k) ≡ false
different_from [] k t h e = cc
different_from (x ∷ keys) k t h e =
    ground (arith, eq_iff t k, eq_iff t x, eq_iff k x, different_from keys k t)

-- Different texts out of a list are at most as many as it has.
pub pigeonhole :
    (keys all : List String)
    → Different keys
    → ((t : String) → contains keys t ≡ true → contains all t ≡ true)
    → length keys ≤ length all
unfolding Different
pigeonhole [] all d sub = omega arith
pigeonhole (k ∷ keys) all d sub =
    let less = pigeonhole keys (remove k all) d.1 (λ t h.
      contains-remove k t all (different_from keys k t d.0 h) (sub t (ground (arith, h)))) in
    let one = length-remove k all (sub k (ground (arith, beq_self k))) in omega (arith, less, one)

pub find : String → List Job → Option Job
find id [] = none
find id (r ∷ records) = if r.job_id == id then some r else find id records

-- The record is the one of the list with its job id.
abbrev pub Member : List Job → Job → Type 0
Member records r = find r.job_id records ≡ some r

pub find-contains :
    (records : List Job) (id : String) (r : Job)
    → find id records ≡ some r
    → contains (ids records) id ≡ true
unfolding find
find-contains [] id r h = cc
find-contains (x ∷ records) id r h =
    ground (arith, eq_iff x.job_id id, eq_iff id x.job_id, find-contains records id r)

members_below :
    (x : Job) (all records : List Job)
    → contains (ids records) x.job_id ≡ false
    → All (Member all) records
    → All (Member (x ∷ all)) records
unfolding find
members_below x all [] h m = tt
members_below x all (r ∷ records) h m =
    (ground (arith, m.0, h), members_below x all records (ground (arith, h)) m.1)

pub all_members : (records : List Job) → Different (ids records) → All (Member records) records
unfolding find Different
all_members [] d = tt
all_members (x ∷ records) d =
    (rw (beq_self x.job_id) refl, members_below x records records d.0 (all_members records d.1))

-- The table of the followers joins a predecessor with a record that follows it.
abbrev pub FollowersHold : List Job → Table String Job → Type 0
FollowersHold all followers =
    (k : String) (r : Job)
    → select k followers ≡ some r
    → Member all r × (truthy_follows r.follows ≡ some k)

pub same_text : {a b : String} → some a ≡ some b → a ≡ b
same_text e = cc

pub same_job : {r x : Job} → some r ≡ some x → r ≡ x
same_job e = cc

pub add_follower-none :
    (r : Job) (o : Option String) (followers : Table String Job) (id : String)
    → select id (add_follower r o followers) ≡ none
    → (select id followers ≡ none) × (o ≡ some id → ⊥)
unfolding add_follower
add_follower-none r none followers id h = (h, λ e. cc)
add_follower-none r (some k) followers id h =
    go (k == id) refl (sym (select-upsert k id r followers) ∙ h)
  where
    go :
        (b : Bool)
        → (k == id) ≡ b
        → (if b then some r else select id followers) ≡ none
        → (select id followers ≡ none) × (some k ≡ some id → ⊥)
    go true e n = cc
    go false e n = (n, λ s. ground (arith, eq_iff k id, same_text s, e))

add_follower-Hold :
    (all : List Job) (r : Job) (o : Option String) (followers : Table String Job)
    → Member all r
    → truthy_follows r.follows ≡ o
    → FollowersHold all followers
    → FollowersHold all (add_follower r o followers)
unfolding add_follower
add_follower-Hold all r none followers m e h = h
add_follower-Hold all r (some id) followers m e h =
    λ k x s. go k x (id == k) refl (sym (select-upsert id k r followers) ∙ s)
  where
    go :
        (k : String) (x : Job) (b : Bool)
        → (id == k) ≡ b
        → (if b then some r else select k followers) ≡ some x
        → Member all x × (truthy_follows x.follows ≡ some k)
    go k x true c s =
        subst (λ y. Member all y × (truthy_follows y.follows ≡ some k)) (same_job s)
          (m, e ∙ ap some ((eq_iff id k).0 c))
    go k x false c s = h k x s

pub followers_of-Hold :
    (all records : List Job) (followers : Table String Job)
    → All (Member all) records
    → FollowersHold all followers
    → FollowersHold all (followers_of records followers)
unfolding followers_of
followers_of-Hold all [] followers m h = h
followers_of-Hold all (r ∷ records) followers m h =
    followers_of-Hold all records (add_follower r (truthy_follows r.follows) followers) m.1
      (add_follower-Hold all r (truthy_follows r.follows) followers m.0 refl h)
