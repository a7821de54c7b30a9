-- ===== src/Map.antt =====
-- std::map and std::unordered_map as association lists, for keys with a test of equality.
pub mod Laws
use fz_server.Prelude.{
  ℕ, ◌≡◌, refl, ap, ◌↔◌, Bool, true, false, ◌&&◌, List, [], ◌∷◌, Option, none, some, arith,
  if◌then◌else◌, ==_iff,
}
use fz_server.Prelude.{◌==◌ as nat_beq}
use fz_server.Prelude.Int.{ℤ, eqb_ℤ}
use fz_server.Memory.{Bytes}
use fz_server.Text.{equals}

pub record Eq {ℓ} (A : Type ℓ) : Type ℓ where
  pub beq : A → A → Bool
  pub beq_iff : (a b : A) → (beq a b ≡ true) ↔ (a ≡ b)

pub eqb_ℤ_iff : (a b : ℤ) → (eqb_ℤ a b ≡ true) ↔ (a ≡ b)
eqb_ℤ_iff a b = ground arith

pub equals_iff : (a b : Bytes) → (equals a b ≡ true) ↔ (a ≡ b)
unfolding equals
equals_iff [] [] = ground arith
equals_iff (x ∷ a) (y ∷ b) = ground (arith, equals_iff a b)
equals_iff _ _ = ground arith

instance abbrev pub nat_eq : Eq ℕ
nat_eq = record { beq = nat_beq; beq_iff = ==_iff }

instance abbrev pub int_eq : Eq ℤ
int_eq = record { beq = eqb_ℤ; beq_iff = eqb_ℤ_iff }

instance abbrev pub bytes_eq : Eq Bytes
bytes_eq = record { beq = equals; beq_iff = equals_iff }

abbrev pub Map : Type 0 → Type 0 → Type 0
Map K V = List (K × V)

module _ {K V : Type 0} ⦃e : Eq K⦄ where
  -- `m.find(k)`.
  unfoldable pub lookup : K → Map K V → Option V
  lookup k [] = none
  lookup k ((j, v) ∷ m) = if e.beq j k then some v else lookup k m

  -- `m[k] = v`.
  unfoldable pub insert : K → V → Map K V → Map K V
  insert k v [] = (k, v) ∷ []
  insert k v ((j, w) ∷ m) = if e.beq j k then (k, v) ∷ m else (j, w) ∷ insert k v m

  -- `m.erase(k)`.
  unfoldable pub erase : K → Map K V → Map K V
  erase k [] = []
  erase k ((j, w) ∷ m) = if e.beq j k then erase k m else (j, w) ∷ erase k m

  -- `m[k]` that is read: a key that is missing is inserted with the default value.
  unfoldable pub fetch : K → V → Map K V → V × Map K V
  unfolding lookup insert
  fetch k d m = elim (lookup k m) [ none ↦ (d, insert k d m) | some v ↦ (v, m) ]
