-- ===== src/Dispatch/Chain/Ends.antt =====
-- chain.py: the loop ends, and what it joins.
use arjim.Base.{
  ℕ, zero, suc, ◌≤◌, ◌+◌, String, none, some, inl, inr, true, false, ◌≡◌, refl, sym, ap, ◌∙◌, List,
  [], ◌∷◌, ◌==◌, string_eq, length, contains, All, arith, Bool-cases, Option-cases, eq_iff,
  length-map,
}
use mathlib.Core.Path.{subst}
use arjim.Base.Table.{Table, select}
use arjim.Dispatch.Chain.{
  Job, truthy_follows, add_follower, followers_of, successors, chains_from,
  build_chain_from_records,
}
use arjim.Dispatch.Chain.Followers.{
  Different, ids, pigeonhole, find, Member, find-contains, all_members, FollowersHold, same_text,
  same_job, add_follower-none, followers_of-Hold,
}

-- The jobs of a chain so far, the last one first: each follows the one below, and the lowest is a
-- head.
abbrev PathTo : Job → List Job → Type 0
PathTo r [] = truthy_follows r.follows ≡ none
PathTo r (x ∷ below) = (truthy_follows r.follows ≡ some x.job_id) × PathTo x below

module _ (all : List Job) where
  record Visited (top : Job) (below : List Job) : Type 0 where
    path : PathTo top below
    member : Member all top
    members : All (Member all) below
    different : Different (ids (top ∷ below))

  none_some : {a : String} → none ≡ some a → ⊥
  none_some e = cc

  not_below :
      (t y : String) (keys : List String) → contains (y ∷ keys) t ≡ false → some y ≡ some t → ⊥
  not_below t y keys h e = ground (arith, eq_iff t y, same_text e)

  same_follows :
      (r : Job) (t : String) (x : Job)
      → truthy_follows r.follows ≡ some t
      → Member all r
      → Member all x
      → (r.job_id == x.job_id) ≡ true
      → truthy_follows x.follows ≡ some t
  same_follows r t x f mr mx e =
      subst (λ y. truthy_follows y.follows ≡ some t)
        (same_job (sym mr ∙ ap (λ id. find id all) ((eq_iff r.job_id x.job_id).0 e) ∙ mx)) f

  members-contains :
      (jobs : List Job)
      → All (Member all) jobs
      → (t : String) → contains (ids jobs) t ≡ true
      → contains (ids all) t ≡ true
  members-contains [] m t h = cc
  members-contains (x ∷ jobs) m t h = elim (Bool-cases (t == x.job_id)) [
    | inl e ↦ rw ((eq_iff t x.job_id).0 e) (find-contains all x.job_id x m.0)
    | inr e ↦ members-contains jobs m.1 t (ground (arith, h, e))
  ]

  -- A job that follows the last one is not in the chain.
  fresh :
      (r : Job) (t : String) (x : Job) (below : List Job)
      → truthy_follows r.follows ≡ some t
      → Member all r
      → Member all x
      → All (Member all) below
      → PathTo x below
      → contains (ids below) t ≡ false
      → contains (ids (x ∷ below)) r.job_id ≡ false
  fresh r t x [] f mr mx mb p h = elim (Bool-cases (r.job_id == x.job_id)) [
    | inl e ↦ absurd (none_some (sym p ∙ same_follows r t x f mr mx e))
    | inr e ↦ rw e refl
  ]
  fresh r t x (y ∷ below) f mr mx mb p h = elim (Bool-cases (r.job_id == x.job_id)) [
    | inl e ↦ absurd (not_below t y.job_id (ids below) h (sym p.0 ∙ same_follows r t x f mr mx e))
    | inr e ↦ rw e (fresh r t y below f mr mb.0 mb.1 p.1 (ground (arith, h)))
  ]

  -- What follows the last job of a chain, up to one that no record follows.
  abbrev pub Joined : Job → List Job → Type 0
  Joined x [] = All (λ r. truthy_follows r.follows ≡ some x.job_id → ⊥) all
  Joined x (y ∷ ys) = (truthy_follows y.follows ≡ some x.job_id) × Joined y ys

  abbrev pub ChainOf : List Job → Type 0
  ChainOf [] = ⊥
  ChainOf (head ∷ chain) = (truthy_follows head.follows ≡ none) × Joined head chain

  alone : (id : String) → Different (id ∷ [])
  unfolding Different
  alone id = (refl, tt)

  visited_few :
      (top : Job) (below : List Job) → Visited top below → length (top ∷ below) ≤ length all
  visited_few top below v =
      let few =
        pigeonhole (ids (top ∷ below)) (ids all) v.different
          (members-contains (top ∷ below) (v.member, v.members)) in
      omega (
        arith,
        few,
        length-map (λ (r : Job). r.job_id) (top ∷ below),
        length-map (λ (r : Job). r.job_id) all,
      )

  step :
      (top : Job) (below : List Job) (r : Job)
      → Visited top below
      → Member all r
      → truthy_follows r.follows ≡ some top.job_id
      → Visited r (top ∷ below)
  unfolding Different
  step top below r v m f = record {
    path = (f, v.path);
    member = m;
    members = (v.member, v.members);
    different =
        (fresh r top.job_id top below f m v.member v.members v.path v.different.0, v.different);
  }

  module _ (followers : Table String Job) (holds : FollowersHold all followers)
      (last : (id : String)
        → select id followers ≡ none
        → All (λ r. truthy_follows r.follows ≡ some id → ⊥) all) where
    successors-Joined :
        (fuel : ℕ) (top : Job) (below : List Job)
        → Visited top below
        → suc (length all) ≤ fuel + length below
        → (chain : List Job) × ((successors followers fuel top.job_id ≡ some chain)
            × Joined top chain)
    unfolding successors
    successors-Joined zero top below v h = absurd (omega (arith, visited_few top below v))
    successors-Joined (suc fuel) top below v h = elim (Option-cases (select top.job_id followers)) [
      | inl e ↦ ([], (rw (successors, e) refl, last top.job_id e))
      | inr (r, e) ↦
          let (m, f) = holds top.job_id r e in
          let (chain, (g, j)) =
            successors-Joined fuel r (top ∷ below) (step top below r v m f) (omega arith) in
          (r ∷ chain, (rw (successors, e) (rw g refl), (f, j)))
    ]

    chains-Joined :
        (fuel : ℕ) (records : List Job)
        → suc (length all) ≤ fuel
        → All (Member all) records
        → (chains : List (List Job)) × ((chains_from followers fuel records ≡ some chains)
            × All ChainOf chains)
    unfolding chains_from
    chains-Joined fuel [] h m = ([], (refl, tt))
    chains-Joined fuel (r ∷ records) h m =
        let (chains, (g, c)) = chains-Joined fuel records h m.1 in
        elim (Option-cases (truthy_follows r.follows)) [
          | inl e ↦
              let (chain, (k, j)) =
                successors-Joined fuel r []
                  (record { path = e; member = m.0; members = tt; different = alone r.job_id })
                  (omega (arith, h)) in
              ((r ∷ chain) ∷ chains, (rw (chains_from, e) (rw k (rw g refl)), ((e, j), c)))
          | inr (id, e) ↦ (chains, (rw (chains_from, e) g, c))
        ]

no_row : (k : String) (r : Job) → select k [] ≡ some r → ⊥
unfolding select
no_row k r e = cc

no_followers : (records : List Job) → FollowersHold records []
no_followers records k r e = absurd (no_row k r e)

-- A job that no row of the table is for is followed by no record.
followers_of-none :
    (records : List Job) (followers : Table String Job) (id : String)
    → select id (followers_of records followers) ≡ none
    → (select id followers ≡ none) × All (λ r. truthy_follows r.follows ≡ some id → ⊥) records
unfolding followers_of
followers_of-none [] followers id h = (h, tt)
followers_of-none (r ∷ records) followers id h =
    let rest =
      followers_of-none records (add_follower r (truthy_follows r.follows) followers) id h in
    let here = add_follower-none r (truthy_follows r.follows) followers id rest.0 in
    (here.0, (here.1, rest.1))

-- If the job ids of the records are distinct, then `build_chain_from_records` ends, with a round
-- for each record and one for the end, and each of its chains starts with a record that follows
-- none, goes on with a record that follows the last one, and ends with a record that none follows.
pub build_chain_from_records-ChainOf :
    (records : List Job)
    → Different (ids records)
    → (chains : List (List Job)) × ((build_chain_from_records records ≡ some chains)
        × All (ChainOf records) chains)
unfolding build_chain_from_records
build_chain_from_records-ChainOf records d =
    chains-Joined records (followers_of records [])
      (followers_of-Hold records records [] (all_members records d) (no_followers records))
      (λ id e. (followers_of-none records [] id e).1) (suc (length records)) records (omega arith)
      (all_members records d)
