-- ===== src/Firmware/Eeprom.antt =====
-- firmware/PowerMon/src/eeprom.c: a write-back page cache that presents pages of the data flash as
-- a byte memory. A function that changes the cache returns the new state. `ExtCache` is the list
-- of its pages, `NumPages` the length of that list, and a pointer to a page is its index.
pub mod Bytes
pub mod Lookup
pub mod Coherent
pub mod Filling
pub mod Memory
pub mod Refine
pub mod Blocks
pub mod Strings
pub mod Drain
pub mod Flush
pub mod Words
pub mod Trace
pub mod Settings
pub mod OnChip
mod Tests
use power_monitor.Prelude.{
  ℕ, zero, suc, ◌+◌, ◌-◌, ◌*◌, ◌/◌, ◌%◌, ◌^◌, Bool, true, false, List, [], ◌∷◌, map, length, get_or,
  set, take, replicate, ltb, ◌==◌, if◌then◌else◌,
}
use power_monitor.Firmware.Flash.{DfToken, DfBuff, buffer2, FlashDriver}

abbrev pub ee_page_size : ℕ
ee_page_size = 512

-- `PAGE_COUNT_MAX`
abbrev pub page_count_max : ℕ
page_count_max = 2 ^ 15 - 1

abbrev pub flush_time : ℕ
flush_time = 50

abbrev pub u32 : ℕ
u32 = 2 ^ 32

-- `EE_CachePage`
pub record CachePage : Type 0 where
  pub page : ℕ
  pub dirty : Bool
  pub count : ℕ
  pub buf : List ℕ

-- A page whose bytes are all 0xFF, as `memset` leaves it: both bit fields are all ones too.
pub blank_page : CachePage
blank_page = record {
  page = 0xFFFF;
  dirty = true;
  count = page_count_max;
  buf = replicate 512 0xFF;
}

-- The body of the loop of `Age_Cache`.
pub age_page : CachePage → CachePage
age_page p = if ltb p.count page_count_max then record p { count = p.count + 1 } else p

pub age_cache : List CachePage → List CachePage
age_cache = map age_page

-- How the loop of `ExtCache_Fill` ends: at the page that matches, or with the oldest page.
pub data Found : Type 0 where
  hit : ℕ → Found
  miss : ℕ → Found

-- The loop of `ExtCache_Fill` from index `i` on; `oldest` is an index, `age` the count there.
pub scan : List CachePage → ℕ → ℕ → ℕ → ℕ → Found
scan [] page i oldest age = miss oldest
scan (p ∷ ps) page i oldest age =
    let rest =
      scan ps page (i + 1) (if ltb age p.count then i else oldest)
        (if ltb age p.count then p.count else age) in
    if p.page == page then hit i else rest

-- `EE_CACHE_PAGE_OFFSET` and the conversion to `uint16_t page`
abbrev pub page_of : ℕ → ℕ
page_of addr = addr / 512 % 2 ^ 16

abbrev pub offset_of : ℕ → ℕ
offset_of addr = addr % 512

module _ (d : FlashDriver) where
  open d use {State, read_page_direct, write_buffer_to_flash, buffer_write}

  -- The static variables of eeprom.c, and the state of the driver below.
  pub record Eeprom : Type 0 where
    pub token : DfToken
    pub ext_cache : List CachePage
    pub flush_delay : ℕ
    pub flash : State

  -- The page that an index points to.
  abbrev pub page_ptr : Eeprom → ℕ → CachePage
  page_ptr e i = get_or e.ext_cache i blank_page

  -- `ExtCache_Fill` behind its loop: page `page` takes the place of the page at `oldest`.
  pub replace_page : Eeprom → ℕ → ℕ → Eeprom
  replace_page e oldest page =
      let old = page_ptr e oldest in
      let clean =
        let (buf, flash) = read_page_direct e.flash e.token page 0 ee_page_size old.buf in
        let p : CachePage = record { page = page; dirty = false; count = 0; buf = buf } in
        record e { ext_cache = set e.ext_cache oldest p; flash = flash } in
      let written =
        let s = buffer_write e.flash e.token old.page 0 ee_page_size buffer2 old.buf in
        let (buf, s') = read_page_direct s e.token page 0 ee_page_size old.buf in
        let p : CachePage = record { page = page; dirty = false; count = 0; buf = buf } in
        record e {
          ext_cache = set e.ext_cache oldest p;
          flush_delay = flush_time;
          flash = write_buffer_to_flash s' e.token old.page buffer2;
        } in
      if old.dirty then written else clean

  -- `ExtCache_Fill`: the index of the page, which is in the cache afterwards.
  pub fill : Eeprom → ℕ → ℕ × Eeprom
  fill e page =
      let aged : Eeprom = record e { ext_cache = age_cache e.ext_cache } in
      elim (scan aged.ext_cache page 0 0 (page_ptr aged 0).count) [
        | hit i ↦ (
          i,
          record aged { ext_cache = set aged.ext_cache i (record (page_ptr aged i) { count = 0 }) },
        )
        | miss oldest ↦ (oldest, replace_page aged oldest page)
      ]

  -- `EE_Init` where `malloc` succeeds. `FlushDelay` is a static variable that starts at zero.
  pub init : State → DfToken → ℕ → Eeprom
  init flash token cache_pages = record {
    token = token;
    ext_cache = replicate cache_pages blank_page;
    flush_delay = 0;
    flash = flash;
  }

  -- The index of the first dirty page of the list, counted from `i`.
  pub first_dirty : List CachePage → ℕ → Found
  first_dirty [] i = miss i
  first_dirty (p ∷ ps) i = if p.dirty then hit i else first_dirty ps (i + 1)

  -- `EE_Cache_Check`: writes the first dirty page back; `true` where there was one.
  pub cache_check : Eeprom → Bool × Eeprom
  cache_check e = elim (first_dirty e.ext_cache 0) [
    | hit i ↦
        let p = page_ptr e i in
        let s = buffer_write e.flash e.token p.page 0 ee_page_size buffer2 p.buf in
        (
          true,
          record e {
            ext_cache = set e.ext_cache i (record p { dirty = false });
            flash = write_buffer_to_flash s e.token p.page buffer2;
          },
        )
    | miss _ ↦ (false, e)
  ]

  -- The loop of `EE_Cache_Flush`: the Boolean says that it ended by its test.
  pub flush_loop : ℕ → Eeprom → Bool × Eeprom
  flush_loop zero e = (false, e)
  flush_loop (suc fuel) e =
      let (found, e') = cache_check e in
      let rest = flush_loop fuel e' in if found then rest else (true, e')

  -- `EE_Cache_Flush`: every round but the last cleans a page, so one round more than there are
  -- pages is enough.
  pub cache_flush : Eeprom → Bool × Eeprom
  cache_flush e = flush_loop (suc (length e.ext_cache)) e
