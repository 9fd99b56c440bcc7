-- ===== src/Voice/Fields/Holds.antt =====
-- What every step of a loop of src/voice_connection.cpp keeps, the loop keeps.
use stoatpp.Prelude.{ℕ, zero, suc, ◌≡◌, refl, Bool, true, false, if◌then◌else◌}
use stoatpp.Voice.Protobuf.{PbReader, read_varint}
use stoatpp.Voice.Fields.{
  Parsed, parsed, undefined, terminated, exhausted, defined, ◌>>=◌, Step, read_fields, field_of,
  wire_of,
}

-- A predicate on the value, where there is one.
abbrev pub OnValue : {A : Type 0} → (A → Type 0) → Parsed A → Type 0
OnValue P (parsed a) = P a
OnValue P undefined = Unit
OnValue P terminated = Unit
OnValue P exhausted = Unit

pub record Holds {A : Type 0} (P : A → Type 0) (m : Parsed A) : Type 0 where
  pub kept : OnValue P m

pub holds : {A : Type 0} {P : A → Type 0} {m : Parsed A} → OnValue P m → Holds P m
holds k = record { kept = k }

pub Holds-bind :
    {A B : Type 0} {P : B → Type 0} (m : Parsed A) {f : A → Parsed B}
    → ((a : A) → Holds P (f a))
    → Holds P (m >>= f)
Holds-bind (parsed a) h = h a
Holds-bind undefined h = holds tt
Holds-bind terminated h = holds tt
Holds-bind exhausted h = holds tt

-- The same, where the first part has a property of its own.
pub Holds-then :
    {A B : Type 0} (P : A → Type 0) {Q : B → Type 0} (m : Parsed A) {f : A → Parsed B}
    → Holds P m
    → ((a : A) → P a → Holds Q (f a))
    → Holds Q (m >>= f)
Holds-then P (parsed a) h k = k a h.kept
Holds-then P undefined h k = holds tt
Holds-then P terminated h k = holds tt
Holds-then P exhausted h k = holds tt

pub Holds-if :
    {A : Type 0} {P : A → Type 0} {b : Bool} {m n : Parsed A}
    → (b ≡ true → Holds P m)
    → (b ≡ false → Holds P n)
    → Holds P (if b then m else n)
Holds-if {b = true} hm hn = hm refl
Holds-if {b = false} hm hn = hn refl

abbrev pub StepKeeps : {A : Type 0} → (A → Type 0) → Step A → Type 0
StepKeeps {A} P step =
    (field wire : ℕ) (a : A) (r : PbReader)
    → P a
    → Holds (λ (q : A × PbReader). P q.0) (step field wire a r)

pub read_fields-Holds :
    {A : Type 0} (P : A → Type 0) (step : Step A)
    → StepKeeps P step
    → (fuel : ℕ) (a : A) (r : PbReader) → P a
    → Holds P (read_fields step fuel a r)
unfolding read_fields
read_fields-Holds P step keeps zero a r h = holds tt
read_fields-Holds {A} P step keeps (suc fuel) a r h =
    let go : Holds P (do
      (key, after) ← defined (read_varint r)
      (b, next) ← step (field_of key) (wire_of key) a after
      read_fields step fuel b next) =
      Holds-bind (defined (read_varint r)) (λ q.
        Holds-then (λ (p : A × PbReader). P p.0) (step (field_of q.0) (wire_of q.0) a q.1)
          (keeps (field_of q.0) (wire_of q.0) a q.1 h)
          (λ p hp. read_fields-Holds P step keeps fuel p.0 p.1 hp)) in
    search (Holds-if, holds, go)
