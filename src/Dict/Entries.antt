-- ===== src/Dict/Entries.antt =====
-- A property of each key with its value, and the writes that keep it.
use stoatpp.Prelude.{◌≡◌, subst, Bool, some, [], inl, inr, Bool-cases}
use mathlib.Core.Option.{some-injective}
use mathlib.Core.Logic.{◌⊎◌}
use stoatpp.Text.{Text, text_eq, text_eq_iff}
use stoatpp.Dict.Defs.{Dict, lookup, insert, erase}
use stoatpp.Dict.Laws.{lookup-insert, lookup-erase}

module _ {ℓ κ} {V : Type ℓ} (P : Text → V → Type κ) where
  pub record Keyed (m : Dict V) : Type (ℓ ⊔ κ) where
    pub at_key : (k : Text) (v : V) → lookup k m ≡ some v → P k v

  pub Keyed-nil : Keyed []
  unfolding lookup
  Keyed-nil = record { at_key = λ k v h. cc }

  pub Keyed-insert : (k : Text) (v : V) (m : Dict V) → P k v → Keyed m → Keyed (insert k v m)
  Keyed-insert k v m p h = record { at_key = λ j w e. at j w (Bool-cases (text_eq k j)) e }
    where
      at :
          (j : Text) (w : V)
          → (text_eq k j ≡ Bool.true) ⊎ (text_eq k j ≡ Bool.false)
          → lookup j (insert k v m) ≡ some w
          → P j w
      at j w (inl same) e =
          subst (λ i. P i w) ((text_eq_iff k j).0 same)
            (subst (P k) (some-injective v w (rw (lookup-insert k j v m, same) at e)) p)
      at j w (inr other) e = h.at_key j w (rw (lookup-insert k j v m, other) at e)

  pub Keyed-erase : (k : Text) (m : Dict V) → Keyed m → Keyed (erase k m)
  Keyed-erase k m h = record { at_key = λ j w e. at j w (Bool-cases (text_eq k j)) e }
    where
      at :
          (j : Text) (w : V)
          → (text_eq k j ≡ Bool.true) ⊎ (text_eq k j ≡ Bool.false)
          → lookup j (erase k m) ≡ some w
          → P j w
      at j w (inl same) e = cc (rw (lookup-erase k j m, same) at e)
      at j w (inr other) e = h.at_key j w (rw (lookup-erase k j m, other) at e)
