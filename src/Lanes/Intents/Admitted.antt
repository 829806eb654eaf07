-- ===== src/Lanes/Intents/Admitted.antt =====
-- The follow-ups that a store admits.
use agent_dispatch.Base.{
  Str, str_eq, str_eq_iff, any, false, ◌≡◌, Option, none, some, List, [], ◌∷◌, ok, arith,
}
use agent_dispatch.Base.Int.{ℤ, pos, ◌≤ℤ◌}
use agent_dispatch.Lanes.Rows.{Store, IntentKey}
use agent_dispatch.Lanes.Intents.{
  IntentInput, same_key, key_of, save_intent, decision_of, save_followup,
}

-- A follow-up was prepared for this lane, with a positive generation and a sound fan-out record, and
-- neither its decision nor its intent is on record.

pub record Admits (destination : Str) (intents : List IntentKey) (decisions : List Str)
    (request : Option IntentInput) : Type 0 where
  pub followup : IntentInput
  pub prepared : request ≡ some followup
  pub own_lane : followup.destination_id ≡ destination
  pub numbered : pos 1 ≤ℤ followup.generation
  pub undecided : any (str_eq (decision_of followup)) decisions ≡ false
  pub unrecorded : any (same_key followup) intents ≡ false
  pub sound_fanout : followup.fanout_refusal ≡ none

abbrev pub generation_of : Option IntentInput → Option ℤ
generation_of none = none
generation_of (some i) = some i.generation

-- the store with the follow-up on record and in the lane's slot
abbrev pub saved : Store → IntentInput → Store
saved store i = record store {
  intents = key_of i ∷ store.intents;
  decisions = decision_of i ∷ store.decisions;
  lane = record store.lane { active_dispatch_id = i.dispatch_id; active_generation = i.generation };
}

pub save_followup-ok :
    (store : Store) (request : Option IntentInput)
    (a : Admits store.destination_id store.intents store.decisions request)
    → store.lane.active_dispatch_id ≡ []
    → save_followup store request ≡ ok (saved store a.followup)
unfolding save_followup save_intent
save_followup-ok store request a slot =
    rw (a.prepared, a.undecided, a.unrecorded, a.sound_fanout)
      (ground (
        arith,
        a.numbered,
        slot,
        str_eq_iff a.followup.destination_id store.destination_id,
        a.own_lane,
      ))
