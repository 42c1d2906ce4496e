-- ===== src/Hashgraph/RoundInfo/Fame.antt =====
-- What `SetFame` decides, and what it leaves alone.
use babble.Base.{
  ◌≡◌, String, Option, none, some, lookup, lookup-insert, if◌then◌else◌, Bool, arith, string_key,
  ite, String-discrete, inl, inr, Option-cases,
}
use babble.Hashgraph.RoundInfo.{
  RoundInfo, RoundEvent, Trilean, yea, nay, or_witness, is_decided, set_fame, add_created_event,
  add_if_new,
}

-- the entry of an event
abbrev pub entry : RoundInfo → String → Option RoundEvent
entry r x = lookup r.created_events x

-- After `SetFame`, the entry of the event has the fame and its old witness flag (a new entry is a
-- witness); no other entry changes.
pub entry-set_fame :
    (r : RoundInfo) (x y : String) (f : Bool)
    → entry (set_fame r x f) y
      ≡ ite
          (String-discrete x y)
          (some (record {
            witness = (or_witness (entry r x)).witness;
            famous = if f then yea else nay;
          }))
          (entry r y)
unfolding set_fame
entry-set_fame r x y f = lookup-insert r.created_events x y _

-- An event that is added again keeps its entry, fame included; a new one starts without a fame.
pub entry-add_created_event :
    (r : RoundInfo) (x y : String) (w : Bool)
    → entry (add_created_event r x w) y ≡ elim (entry r y) [
      | some e ↦ some e
      | none ↦
          ite (String-discrete x y) (some (record { witness = w; famous = Trilean.undefined })) none
    ]
unfolding add_created_event
entry-add_created_event r x y w = elim (Option-cases (entry r x)) [
  | inl e ↦ rw (e, add_if_new, lookup-insert) (ground (arith, e))
  | inr (v, e) ↦ rw (e, add_if_new) (ground (arith, e))
]

-- A witness's fame that `SetFame` sets is decided, and deciding one event decides no other.
pub is_decided-set_fame :
    (r : RoundInfo) (x y : String) (f : Bool)
    → is_decided (set_fame r x f) y
      ≡ ite (String-discrete x y) (or_witness (entry r x)).witness (is_decided r y)
unfolding is_decided
is_decided-set_fame r x y f = rw (entry-set_fame r x y f) (ground arith)
