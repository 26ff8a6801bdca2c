-- ===== src/Firmware/Eeprom/Memory.antt =====
-- The flat byte memory that eeprom.c presents, as an abstract specification.
use power_monitor.Prelude.{
  ℕ, ◌/◌, ◌%◌, ◌≡◌, ◌≢◌, ap, ◌∙◌, List, length, get_or, set, length-set, get_or-set_self,
  get_or-set_ne, arith, ◌==◌, if◌then◌else◌, ==_refl, ==_of_ne,
}
use native.Mathlib.Decide.{ℕ_discrete}

-- The bytes of each page.
abbrev pub Memory : Type 0
Memory = ℕ → List ℕ

unfoldable pub byte_at : Memory → ℕ → ℕ
byte_at m a = get_or (m (a / 512)) (a % 512) 0

unfoldable pub store : Memory → ℕ → ℕ → Memory
store m a v p = if a / 512 == p then set (m p) (a % 512) v else m p

-- A store changes the byte at its address and no other.
pub byte_at-store :
    (m : Memory) (a b v : ℕ)
    → length (m (a / 512)) ≡ 512
    → byte_at (store m a v) b ≡ (if a == b then v else byte_at m b)
unfolding byte_at store
byte_at-store m a b v len = elim (ℕ_discrete (a / 512) (b / 512)) [
  | yes page ↦ elim (ℕ_discrete a b) [
    | yes e ↦
        rw (← e, ==_refl a, ==_refl (a / 512))
          (get_or-set_self (m (a / 512)) (a % 512) v 0 (omega arith))
    | no ne ↦
        rw (page, ==_refl (b / 512), ==_of_ne a b ne)
          (get_or-set_ne (m (b / 512)) (a % 512) (b % 512) v 0 (omega arith))
  ]
  | no ne ↦ rw (==_of_ne (a / 512) (b / 512) ne, ==_of_ne a b (λ e. ne (ap (λ (k : ℕ). k / 512) e)))
]

pub byte_at-store_self :
    (m : Memory) (a v : ℕ) → length (m (a / 512)) ≡ 512 → byte_at (store m a v) a ≡ v
byte_at-store_self m a v len =
    byte_at-store m a a v len ∙ ap (λ t. if t then v else byte_at m a) (==_refl a)

pub byte_at-store_ne :
    (m : Memory) (a b v : ℕ)
    → length (m (a / 512)) ≡ 512
    → a ≢ b
    → byte_at (store m a v) b ≡ byte_at m b
byte_at-store_ne m a b v len ne =
    byte_at-store m a b v len ∙ ap (λ t. if t then v else byte_at m b) (==_of_ne a b ne)

-- A store keeps the size of every page.
pub length-store : (m : Memory) (a v p : ℕ) → length (store m a v p) ≡ length (m p)
unfolding store
length-store m a v p = elim (ℕ_discrete (a / 512) p) [
  | yes e ↦ rw (e, ==_refl p) (length-set (m p) (a % 512) v)
  | no ne ↦ rw (==_of_ne (a / 512) p ne)
]
