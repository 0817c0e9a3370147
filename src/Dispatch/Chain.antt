-- ===== src/Dispatch/Chain.antt =====
-- workstream_dispatch/chain.py: the chains of jobs, by the item `follows` of their records.
pub mod Followers
pub mod Ends
pub mod Proposals
use arjim.Base.{
  ℕ, zero, suc, String, Option, none, some, Bool, true, false, List, [], ◌∷◌, if◌then◌else◌, ◌==◌,
  string_eq, length,
}
use arjim.Base.Table.{Table, select, upsert}
use arjim.Json.{Json}
use arjim.Dispatch.States.{JobState}

pub record ChainProposal : Type 0 where
  pub predecessor_job_id : String
  pub predecessor_state : JobState
  pub successor_follows : String

abbrev is_running : JobState → Bool
is_running JobState.running = true
is_running s = false

unfoldable pub propose_follow_on : String → JobState → Option ChainProposal
propose_follow_on job_id state =
    if is_running state
    then none
    else some (record {
      predecessor_job_id = job_id;
      predecessor_state = state;
      successor_follows = job_id;
    })

-- A job record, with its two items that are read here. An empty `follows` counts as none.
pub record Job : Type 0 where
  pub job_id : String
  pub follows : Option String
  pub document : Json

unfoldable pub truthy_follows : Option String → Option String
truthy_follows none = none
truthy_follows (some id) = if id == "" then none else some id

-- `followers[follows] = r`
pub add_follower : Job → Option String → Table String Job → Table String Job
add_follower r none followers = followers
add_follower r (some id) followers = upsert id r followers

-- The loop over the records, which comes from the first to the last.
unfoldable pub followers_of : List Job → Table String Job → Table String Job
unfolding add_follower truthy_follows
followers_of [] followers = followers
followers_of (r ∷ records) followers =
    followers_of records (add_follower r (truthy_follows r.follows) followers)

-- `while True: successor = followers.get(current_id); …`, where `none` is out of fuel
unfoldable pub successors : Table String Job → ℕ → String → Option (List Job)
successors followers zero current_id = none
successors followers (suc fuel) current_id = elim (select current_id followers) [
  | none ↦ some []
  | some r ↦ elim (successors followers fuel r.job_id) [ none ↦ none | some rest ↦ some (r ∷ rest) ]
]

unfoldable pub chains_from : Table String Job → ℕ → List Job → Option (List (List Job))
unfolding truthy_follows
chains_from followers fuel [] = some []
chains_from followers fuel (r ∷ records) =
    let rest = chains_from followers fuel records in
    elim (truthy_follows r.follows) [
      | some id ↦ rest
      | none ↦ elim (successors followers fuel r.job_id) [
        | none ↦ none
        | some chain ↦ elim rest [ none ↦ none | some chains ↦ some ((r ∷ chain) ∷ chains) ]
      ]
    ]

-- `build_chain_from_records`. A chain has each record at most once, if the job ids are distinct, so
-- as much fuel as there are records, and one round for the end, are enough.
unfoldable pub build_chain_from_records : List Job → Option (List (List Job))
build_chain_from_records records =
    chains_from (followers_of records []) (suc (length records)) records
