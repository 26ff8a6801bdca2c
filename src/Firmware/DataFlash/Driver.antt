-- ===== src/Firmware/DataFlash/Driver.antt =====
-- The driver over the chip is the flash that the EEPROM cache asks for.
use power_monitor.Prelude.{
  ℕ, zero, suc, ◌+◌, ◌≤◌, ◌<◌, ◌≡◌, ◌≢◌, refl, sym, ap, ◌∙◌, true, false, List, [], ◌∷◌, ◌++◌,
  length, take, drop, values, drop-length, take-length, ==→eq, inl, inr, length-values,
  values-get_or, arith, ◌==◌, Bool-cases, if◌then◌else◌,
}
use mathlib.Core.Path.{fun_ext, ap₂}
use mathlib.Core.List.{append-nil}
use power_monitor.Firmware.Board.{Board}
use power_monitor.Firmware.Flash.{DfToken, DfBuff, FlashDriver}
use power_monitor.Firmware.DataFlash.{
  DataFlash, page_address, chip_page, token_check, wait_loop, wait_ready, read_page_direct,
  write_buffer_to_flash, buffer_write,
}
use power_monitor.Firmware.DataFlash.Address.{page_address-spelled}
use power_monitor.Firmware.DataFlash.Session.{
  session, session-read, session-send, session-send2, is_flash_ready-session,
}
use power_monitor.Firmware.DataFlash.Chip.{At45db}

-- The token lies on the chip.
abbrev pub FitsChip : DfToken → Type 0
FitsChip t = t.first_page + t.size ≤ 8192

module _ (b : Board) (polls : b.State → ℕ) (chip : At45db b polls) where
  -- What waiting for the chip leaves: it is ready, and its memory is as before.
  pub record Ready (f f' : DataFlash b polls) : Type 0 where
    pub idle : polls f'.spi ≡ 0
    pub content : chip.content f' ≡ chip.content f
    pub buffer : chip.buffer f' ≡ chip.buffer f

  abbrev poll : DataFlash b polls → DataFlash b polls
  poll f = (session b polls f (0xD7 ∷ 0xFF ∷ [])).1

  -- With a chip that behaves as its data sheet says, the loop that waits for it ends by its test
  -- where the fuel exceeds the status reads that still answer busy; the chip is then idle, with its
  -- memory and buffers unchanged.
  pub wait_loop-Ready :
      (fuel : ℕ) (f : DataFlash b polls)
      → polls f.spi < fuel
      → let (done, f') = wait_loop b polls fuel f in (done ≡ true) × Ready f f'
  unfolding wait_loop
  wait_loop-Ready zero f lt = absurd (omega arith)
  wait_loop-Ready (suc fuel) f lt =
      rw (is_flash_ready-session b polls f, chip.status_bit f)
        (elim (Bool-cases (polls f.spi == 0)) [
          | inl idle ↦ rw idle (
            refl,
            record {
              idle = omega (arith, chip.status_polls f, ==→eq _ _ idle);
              content = chip.status_content f;
              buffer = chip.status_buffer f;
            },
          )
          | inr busy ↦
              let some_left : polls f.spi ≢ 0 = ground arith in
              let (done, r) = wait_loop-Ready fuel (poll f) (omega (arith, chip.status_polls f)) in
              rw busy (
                done,
                record {
                  idle = r.idle;
                  content = r.content ∙ chip.status_content f;
                  buffer = r.buffer ∙ chip.status_buffer f;
                },
              )
        ])

  -- `while ( !IsFlashReady() ) ;` ends with the chip ready.
  wait_ready-Ready : (f : DataFlash b polls) → Ready f (wait_ready b polls f)
  unfolding wait_ready
  wait_ready-Ready f = (wait_loop-Ready (suc (polls f.spi)) f (omega arith)).1

  accepted : (t : DfToken) (p : ℕ) → p < t.size → token_check t p ≡ false
  accepted t p lt = ground arith

  refused : (t : DfToken) (p : ℕ) → t.size ≤ p → token_check t p ≡ true
  refused t p le = ground arith

  chip_page-lt : (t : DfToken) (p : ℕ) → FitsChip t → p < t.size → chip_page t p < 8192
  chip_page-lt t p fits lt = omega arith

  -- With a chip that behaves as its data sheet says, `DFS_ReadPageDirect` of a page of a token that
  -- lies on the chip fills a buffer of `size` bytes with the bytes from the offset on of the chip
  -- page that is the page behind the token's first, if offset and size stay within 528 bytes.
  pub read_page_direct-values :
      (f : DataFlash b polls) (t : DfToken) (p offset size : ℕ) (dest : List ℕ)
      → FitsChip t
      → p < t.size
      → offset + size ≤ 528
      → length dest ≡ size
      → (read_page_direct b polls f t p offset size dest).0
        ≡ values (chip.content f (chip_page t p)) offset size
  unfolding read_page_direct page_address
  read_page_direct-values f t p offset size dest fits lt room len = rw (accepted t p lt) (
      ap (λ (bytes : List ℕ). bytes ++ drop size dest)
        (ap (λ (r : List ℕ × DataFlash b polls). r.0) (session-read b polls w _ size)
          ∙ chip.read_bytes w (chip_page t p) offset size _ _ _ r.idle (chip_page-lt t p fits lt)
              room
              (page_address-spelled (chip_page t p) offset (chip_page-lt t p fits lt)
                (omega arith)).1
          ∙ ap (λ c. values (c (chip_page t p)) offset size) r.content)
      ∙ ap (λ (rest : List ℕ). values (chip.content f (chip_page t p)) offset size ++ rest)
          (ap (λ k. drop k dest) (sym len) ∙ drop-length dest)
      ∙ append-nil _)
    where
      w : DataFlash b polls
      w = wait_ready b polls f

      r : Ready f w
      r = wait_ready-Ready f

  -- With a chip that behaves as its data sheet says, `DFS_WriteBufferToFlash` of a page of a token
  -- that lies on the chip copies the buffer to the chip page that is the page behind the token's
  -- first, and changes no other page.
  pub content-write_buffer_to_flash :
      (f : DataFlash b polls) (t : DfToken) (p : ℕ) (w : DfBuff) (q i : ℕ)
      → FitsChip t
      → p < t.size
      → chip.content (write_buffer_to_flash b polls f t p w) q i
        ≡ (if chip_page t p == q then chip.buffer f w i else chip.content f q i)
  unfolding write_buffer_to_flash
  content-write_buffer_to_flash f t p w q i fits lt =
      let r = wait_ready-Ready f in
      rw (accepted t p lt) (
        ap (λ g. chip.content g q i) (session-send b polls (wait_ready b polls f) _)
        ∙ chip.program_content (wait_ready b polls f) w (chip_page t p) _ _ q i r.idle
            (chip_page-lt t p fits lt) (omega arith)
        ∙ ap₂ (λ (x y : ℕ). if chip_page t p == q then x else y) (ap (λ g. g w i) r.buffer)
            (ap (λ g. g q i) r.content))

  -- What is written to a buffer is what it holds.
  pub buffer-buffer_write :
      (f : DataFlash b polls) (t : DfToken) (p offset : ℕ) (w : DfBuff) (src : List ℕ)
      → p < t.size
      → offset + length src ≤ 528
      → values (chip.buffer (buffer_write b polls f t p offset w src) w) offset (length src) ≡ src
  unfolding buffer_write
  buffer-buffer_write f t p offset w src lt room =
      let r = wait_ready-Ready f in
      rw (accepted t p lt) (
        rw (session-send2 b polls (wait_ready b polls f) _ src) (
          values-get_or _ offset src 0 (λ i inside.
            chip.write_buffer (wait_ready b polls f) w offset _ _ i src r.idle room (omega arith)
              inside)))

  pub content-buffer_write :
      (f : DataFlash b polls) (t : DfToken) (p offset : ℕ) (w : DfBuff) (src : List ℕ)
      → chip.content (buffer_write b polls f t p offset w src) ≡ chip.content f
  unfolding buffer_write
  content-buffer_write f t p offset w src = elim (Bool-cases (token_check t p)) [
    | inl out ↦ rw out
    | inr fine ↦
        let r = wait_ready-Ready f in
        rw fine (
          ap chip.content (session-send2 b polls (wait_ready b polls f) _ src)
          ∙ chip.write_content (wait_ready b polls f) w _ r.idle
          ∙ r.content)
  ]

  -- A read changes neither the pages nor the buffers.
  pub read_page_direct-keeps :
      (f : DataFlash b polls) (t : DfToken) (p offset size : ℕ) (dest : List ℕ)
      → (chip.content (read_page_direct b polls f t p offset size dest).1 ≡ chip.content f)
        × (chip.buffer (read_page_direct b polls f t p offset size dest).1 ≡ chip.buffer f)
  unfolding read_page_direct
  read_page_direct-keeps f t p offset size dest = elim (Bool-cases (token_check t p)) [
    | inl out ↦ rw out (refl, refl)
    | inr fine ↦
        let r = wait_ready-Ready f in
        let s =
          ap (λ (r : List ℕ × DataFlash b polls). r.1)
            (session-read b polls (wait_ready b polls f) _ size) in
        rw fine (
          ap chip.content s ∙ chip.read_content (wait_ready b polls f) _ r.idle ∙ r.content,
          ap chip.buffer s ∙ chip.read_buffer (wait_ready b polls f) _ r.idle ∙ r.buffer,
        )
  ]

  -- The 512 bytes of a page of the token.
  abbrev pub token_page : DataFlash b polls → DfToken → ℕ → List ℕ
  token_page f t p = values (chip.content f (chip_page t p)) 0 512

  -- Pages of a token are distinct pages of the chip.
  same_page :
      (t : DfToken) (p q : ℕ)
      → FitsChip t
      → p < t.size
      → q < t.size
      → (chip_page t p == chip_page t q) ≡ (p == q)
  same_page t p q fits lp lq = ground arith

  pub token_page-write_buffer_to_flash :
      (f : DataFlash b polls) (t : DfToken) (p : ℕ) (w : DfBuff) (q : ℕ)
      → FitsChip t
      → p < t.size
      → q < t.size
      → token_page (write_buffer_to_flash b polls f t p w) t q
        ≡ (if p == q then values (chip.buffer f w) 0 512 else token_page f t q)
  token_page-write_buffer_to_flash f t p w q fits lp lq =
      ap (λ g. values g 0 512)
        (fun_ext (λ i. content-write_buffer_to_flash f t p w (chip_page t q) i fits lp))
      ∙ elim (Bool-cases (p == q)) [
        | inl same ↦ rw (same_page t p q fits lp lq, same)
        | inr other ↦ rw (same_page t p q fits lp lq, other)
      ]

  pub write_buffer_to_flash_refused :
      (f : DataFlash b polls) (t : DfToken) (p : ℕ) (w : DfBuff)
      → t.size ≤ p
      → write_buffer_to_flash b polls f t p w ≡ f
  unfolding write_buffer_to_flash
  write_buffer_to_flash_refused f t p w le = rw (refused t p le)

  -- A page of 512 bytes goes to the buffer whole.
  pub held-buffer_write :
      (f : DataFlash b polls) (t : DfToken) (p : ℕ) (w : DfBuff) (src : List ℕ)
      → p < t.size
      → length src ≡ 512
      → values (chip.buffer (buffer_write b polls f t p 0 w (take 512 src)) w) 0 512 ≡ src
  held-buffer_write f t p w src lt len =
      ap₂
        (λ (bytes : List ℕ) (n : ℕ).
          values (chip.buffer (buffer_write b polls f t p 0 w bytes) w) 0 n)
        (ap (λ (n : ℕ). take n src) (sym len) ∙ take-length src) (sym len)
      ∙ buffer-buffer_write f t p 0 w src lt (omega arith)

  -- The driver is the flash of the EEPROM cache: its pages are those of the chip.
  abbrev pub flash_driver : FlashDriver
  flash_driver = record {
    State = DataFlash b polls;
    read_page_direct = read_page_direct b polls;
    write_buffer_to_flash = write_buffer_to_flash b polls;
    buffer_write = λ f t p offset size w src. buffer_write b polls f t p offset w (take size src);
    Fits = FitsChip;
    page_at = token_page;
    held = λ f w. values (chip.buffer f w) 0 512;
    length-page_at = λ f t p. length-values _ 0 512;
    read_page = λ f t p dest fits lt len.
        read_page_direct-values f t p 0 512 dest fits lt (omega arith) len;
    read_keeps = λ f t p dest q.
        ap (λ c. values (c (chip_page t q)) 0 512) (read_page_direct-keeps f t p 0 512 dest).0;
    read_keeps_held =
        λ f t p dest w. ap (λ c. values (c w) 0 512) (read_page_direct-keeps f t p 0 512 dest).1;
    program_page = token_page-write_buffer_to_flash;
    program_refused = write_buffer_to_flash_refused;
    buffer_write_held = λ f t p w src fits lt len. held-buffer_write f t p w src lt len;
    buffer_write_keeps = λ f t p w src q.
        ap (λ c. values (c (chip_page t q)) 0 512) (content-buffer_write f t p 0 w (take 512 src));
  }
