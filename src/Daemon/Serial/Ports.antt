-- ===== src/Daemon/Serial/Ports.antt =====
-- Which descriptors `Serial_Openport` leaves open.
mod Tests
use power_monitor.Prelude.{
  ℕ, ◌+◌, ◌≡◌, ◌⊎◌, ◌∙◌, inl, inr, refl, sym, ap, Bool, true, false, List, [], ◌∷◌, Option, none,
  some, Bool-cases, Option-cases, arith, if◌then◌else◌,
}
use power_monitor.Daemon.Serial.{Os, set_up, open_port, baud_rate}

-- `opened s` counts the descriptors that are open, `is_open s fd` tells whether one is: what POSIX
-- says of the calls.
pub record Descriptors (os : Os) : Type 0 where
  pub opened : os.State → ℕ
  pub is_open : os.State → ℕ → Bool
  pub open_adds :
      (s : os.State) (port : List ℕ) (fd : ℕ)
      → (os.open_file s port).0 ≡ some fd
      → (opened (os.open_file s port).1 ≡ opened s + 1)
        × (is_open (os.open_file s port).1 fd ≡ true)
  pub open_fails :
      (s : os.State) (port : List ℕ)
      → (os.open_file s port).0 ≡ none
      → opened (os.open_file s port).1 ≡ opened s
  pub blocking_keeps :
      (s : os.State) (fd : ℕ)
      → (opened (os.set_blocking s fd) ≡ opened s)
        × (is_open (os.set_blocking s fd) fd ≡ is_open s fd)
  pub attributes_keep :
      (s : os.State) (fd rate n t : ℕ)
      → (opened (os.set_attributes s fd rate n t).1 ≡ opened s)
        × (is_open (os.set_attributes s fd rate n t).1 fd ≡ is_open s fd)
  pub close_removes :
      (s : os.State) (fd : ℕ) → is_open s fd ≡ true → opened (os.close s fd).1 + 1 ≡ opened s

module _ (os : Os) (d : Descriptors os) where
  set_up-opened :
      (s : os.State) (fd rate n t : ℕ)
      → d.is_open s fd ≡ true
      → (((set_up os s fd rate n t).0 ≡ some fd)
          × (d.opened (set_up os s fd rate n t).1 ≡ d.opened s))
        ⊎ (((set_up os s fd rate n t).0 ≡ none)
            × (d.opened (set_up os s fd rate n t).1 + 1 ≡ d.opened s))
  unfolding set_up
  set_up-opened s fd rate n t here =
      let before = os.set_blocking s fd in
      let (b_count, b_open) = d.blocking_keeps s fd in
      let (a_count, a_open) = d.attributes_keep before fd (baud_rate rate) n t in
      let result = os.set_attributes before fd (baud_rate rate) n t in
      elim (Bool-cases result.0) [
        | inl done ↦ rw done (inl (refl, a_count ∙ b_count))
        | inr failed ↦
            rw failed
              (inr (refl, d.close_removes result.1 fd (a_open ∙ b_open ∙ here) ∙ a_count ∙ b_count))
      ]

  -- Over calls that count descriptors as POSIX says, `Serial_Openport` either returns a descriptor
  -- and one more is open, or returns -1 and as many are open as before.
  pub open_port-opened :
      (s : os.State) (port : List ℕ) (rate n t : ℕ)
      → (((fd : ℕ) × ((open_port os s port rate n t).0 ≡ some fd))
          × (d.opened (open_port os s port rate n t).1 ≡ d.opened s + 1))
        ⊎ (((open_port os s port rate n t).0 ≡ none)
            × (d.opened (open_port os s port rate n t).1 ≡ d.opened s))
  unfolding open_port
  open_port-opened s port rate n t =
      let s' = (os.open_file s port).1 in
      elim (Option-cases (os.open_file s port).0) [
        | inl e ↦ rw (e, open_port) (inr (refl, d.open_fails s port e))
        | inr (fd, e) ↦
            let (more, here) = d.open_adds s port fd e in
            rw (e, open_port)
              (elim (set_up-opened s' fd rate n t here) [
                | inl (r, same) ↦ inl ((fd, r), same ∙ more)
                | inr (r, less) ↦ inr (r, omega (arith, less, more))
              ])
      ]
