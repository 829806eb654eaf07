-- ===== src/Lanes/Intents.antt =====
-- internal/adapters/sqlite/store.go, `SaveIntent`: the row of a dispatch intent, and in the same
-- transaction the reservation of its lane's slot. Of `dispatch_intents` the model keeps what its
-- constraints read: the keys, and that a generation is positive. What `saveFanoutTx` answers on the
-- intent's fan-out record is a field of the intent. From coordination.go, `completeActiveTx`, the
-- records of a follow-up: its decision and its intent.
pub mod Admitted
use agent_dispatch.Base.{
  Str, codes, str_eq, is_empty, if◌then◌else◌, Bool, ◌&&◌, ◌||◌, not, any, Option, none, some, List,
  [], ◌∷◌, ◌++◌, ok, err, Result, ◌>>=◌,
}
use agent_dispatch.Base.Int.{ℤ, pos, leb_ℤ}
use agent_dispatch.State.Route.{route_idle}
use agent_dispatch.Lanes.Rows.{
  LaneRow, IntentKey, Store, StoreError, slot_held, decision_taken, intent_refused, fanout_refused,
  with_lane,
}

-- `destination_id` is the fan-out's destination, or the legacy lane where there is no fan-out record.
pub record IntentInput : Type 0 where
  pub dispatch_id : Str
  pub generation : ℤ
  pub target_id : Str
  pub idempotency_key : Str
  pub destination_id : Str
  pub fanout_refusal : Option Str

-- `PRIMARY KEY (dispatch_id)`, `UNIQUE (target_id, idempotency_key)`
abbrev pub same_key : IntentInput → IntentKey → Bool
same_key i k =
    str_eq k.dispatch_id i.dispatch_id
    || (str_eq k.target_id i.target_id && str_eq k.idempotency_key i.idempotency_key)

abbrev pub key_of : IntentInput → IntentKey
key_of i = record {
  dispatch_id = i.dispatch_id;
  target_id = i.target_id;
  idempotency_key = i.idempotency_key;
}

-- the INSERT, with `CHECK (generation >= 1)`
abbrev insert_intent : Store → IntentInput → Result StoreError Store
insert_intent store i =
    if not (leb_ℤ (pos 1) i.generation) || any (same_key i) store.intents
    then err (intent_refused i.dispatch_id)
    else ok (record store { intents = key_of i ∷ store.intents })

abbrev save_fanout : Store → IntentInput → Result StoreError Store
save_fanout store i = elim i.fanout_refusal [ none ↦ ok store | some e ↦ err (fanout_refused e) ]

-- the UPDATE of the lane's slot, `WHERE … active_dispatch_id IS NULL`
abbrev pub reserve_row : IntentInput → LaneRow → Result StoreError LaneRow
reserve_row i lane =
    if is_empty lane.active_dispatch_id
    then ok (record lane { active_dispatch_id = i.dispatch_id; active_generation = i.generation })
    else err (slot_held lane.active_dispatch_id)

-- the row of `materializeLaneTx`
abbrev new_lane : LaneRow
new_lane = record {
  lane_state = route_idle;
  active_dispatch_id = [];
  active_generation = pos 0;
  dirty_generation = pos 0;
  dirty_since = none;
}

abbrev put_first :
    Str
    → List (Str × LaneRow)
    → Result StoreError LaneRow
    → Result StoreError (List (Str × LaneRow))
put_first destination rest row = row >>= λ lane. ok ((destination, lane) ∷ rest)

abbrev put_back :
    Str × LaneRow
    → Result StoreError (List (Str × LaneRow))
    → Result StoreError (List (Str × LaneRow))
put_back row rows = rows >>= λ rest. ok (row ∷ rest)

-- the slot of another lane, which is created if it is missing
unfoldable pub reserve_sibling :
    IntentInput → List (Str × LaneRow) → Result StoreError (List (Str × LaneRow))
reserve_sibling i [] = put_first i.destination_id [] (reserve_row i new_lane)
reserve_sibling i ((d, lane) ∷ rest) =
    let others = reserve_sibling i rest in
    if str_eq d i.destination_id
    then put_first d rest (reserve_row i lane)
    else put_back (d, lane) others

abbrev reserve_lane : Store → IntentInput → Result StoreError Store
reserve_lane store i =
    if str_eq i.destination_id store.destination_id
    then (reserve_row i store.lane >>= λ lane. ok (with_lane store lane))
    else (reserve_sibling i store.siblings >>= λ rows. ok (record store { siblings = rows }))

unfoldable pub save_intent : Store → IntentInput → Result StoreError Store
unfolding str_eq reserve_sibling
save_intent store i =
    insert_intent store i >>= λ store₁. save_fanout store₁ i >>= λ store₂. reserve_lane store₂ i

-- the id of the follow-up's decision
abbrev pub decision_of : IntentInput → Str
decision_of i = codes "dec-" ++ i.dispatch_id

abbrev pub is_decided : Store → IntentInput → Bool
is_decided store i = any (str_eq (decision_of i)) store.decisions

-- the decision and the intent of the prepared follow-up, if there is one
unfoldable pub save_followup : Store → Option IntentInput → Result StoreError Store
unfolding str_eq
save_followup store none = ok store
save_followup store (some i) =
    if is_decided store i
    then err (decision_taken i.dispatch_id)
    else save_intent (record store { decisions = decision_of i ∷ store.decisions }) i

abbrev pub dispatch_of : Option IntentInput → Option Str
dispatch_of none = none
dispatch_of (some i) = some i.dispatch_id
