-- ===== src/Firmware/Eeprom/Tests.antt =====
-- The cache of two pages over a token of four erased pages.
use power_monitor.Prelude.{
  sym, values, ◌/◌, ◌<◌, ◌≤◌, ◌≢◌, ◌≡◌, ◌⊎◌, refl, true, false, List, [], ◌∷◌, length, replicate,
  arith,
}
use mathlib.Core.Path.{subst}
use power_monitor.Firmware.Flash.{DfToken}
use power_monitor.Firmware.Flash.Ram.{Ram, ram}
use power_monitor.Firmware.Eeprom.{CachePage, Eeprom, miss, scan, init, cache_flush}
use power_monitor.Firmware.Eeprom.Bytes
use power_monitor.Firmware.Eeprom.Bytes.{
  read_string, write_string, read1, read4, read4_default, write1, write4,
}
use power_monitor.Firmware.Eeprom.Lookup.{nth, evicted_is_oldest}
use power_monitor.Firmware.Eeprom.Coherent.{Holds}
use power_monitor.Firmware.Eeprom.Memory.{Memory, byte_at, store}
use power_monitor.Firmware.Eeprom.Refine.{write1-store}
use power_monitor.Firmware.Eeprom.Flush.{dirty_count-le, Stored, cache_flush-stores}
use power_monitor.Firmware.Eeprom.Words.{
  word4, store4, IsErased, read4-write4, read4_default-Returns,
}
use power_monitor.Firmware.Eeprom.Blocks.{store_all, read-write}
use power_monitor.Firmware.Eeprom.Drain.{checks, checks-stores}
use power_monitor.Firmware.Eeprom.Strings.{
  AreStorable, none_left, storable, read_string-write_string,
}
use power_monitor.Firmware.Eeprom.Trace.{
  Call, read, write, tick, flush, run, run_memory, run_refines, init-Holds, restart-Holds,
}

abbrev token : DfToken
token = record { first_page = 3; size = 4 }

abbrev erased : Ram
erased = record { pages = λ q i. 0xFF; buffers = λ b i. 0 }

abbrev start : Eeprom ram
start = init ram erased token 2

abbrev start_memory : Memory
start_memory = ram.page_at erased token

start-Holds : Holds ram start start_memory
start-Holds = init-Holds ram erased token 2 tt (omega arith) (omega arith)

abbrev calls : List Call
calls = write 5 7 ∷ read 5 ∷ write 700 9 ∷ tick ∷ read 1500 ∷ flush ∷ read 700 ∷ []

run_refines_example :
    ((run ram calls start).0 ≡ (run_memory calls start_memory).0)
    × Holds ram (run ram calls start).1 (run_memory calls start_memory).1
    × ((run ram calls start).1.token ≡ start.token)
unfolding init
run_refines_example =
    run_refines ram calls start start_memory
      (omega arith, (omega arith, (omega arith, (omega arith, (omega arith, tt))))) start-Holds

abbrev written : Eeprom ram
written = write1 ram start 700 9

abbrev written_memory : Memory
written_memory = store start_memory 700 9

written-Holds : Holds ram written written_memory
unfolding init
written-Holds = (write1-store ram start start_memory 700 9 (omega arith) start-Holds).0

written_token : written.token ≡ token
unfolding init
written_token = (write1-store ram start start_memory 700 9 (omega arith) start-Holds).1

restart-Holds_example :
    (read1 ram (init ram (cache_flush ram written).1.flash written.token 2) 700).0
    ≡ byte_at written_memory 700
restart-Holds_example =
    restart-Holds ram written written_memory 2 700 (omega arith)
      (subst (λ (t : DfToken). 700 / 512 < t.size) (sym written_token) (omega arith)) written-Holds

cache_flush-stores_example :
    let (done, e') = cache_flush ram written in
    (done ≡ true)
    × Holds ram e' written_memory
    × Stored ram e' written_memory
    × (e'.token ≡ written.token)
cache_flush-stores_example = cache_flush-stores ram written written_memory written-Holds

read4-write4_example :
    let r = read4 ram (write4 ram start 510 0x12345678) 510 in
    (r.0 ≡ 0x12345678)
    × Holds ram r.1 (store4 start_memory 510 0x12345678)
    × (byte_at (store4 start_memory 510 0x12345678) 514 ≡ byte_at start_memory 514)
unfolding init
read4-write4_example =
    read4-write4 ram start start_memory 510 0x12345678 514 (omega arith) (omega arith) (omega arith)
      (omega arith) (omega arith) (omega arith) start-Holds

read4_default-Returns_example :
    let r = read4_default ram start 2 856 in
    Holds ram r.1 start_memory
    × ((IsErased start_memory 2 × (r.0 ≡ 856))
        ⊎ ((¬ IsErased start_memory 2) × (r.0 ≡ word4 start_memory 2)))
unfolding init byte_at values
read4_default-Returns_example =
    read4_default-Returns ram start start_memory 2 856 (omega arith)
      (omega arith, omega arith, omega arith, omega arith) start-Holds

abbrev two_pages : List CachePage
two_pages =
    record { page = 4; dirty = false; count = 3; buf = replicate 512 0 }
    ∷ record { page = 9; dirty = true; count = 8; buf = replicate 512 1 }
    ∷ []

two_pages_miss : scan two_pages 2 0 0 (nth two_pages 0).count ≡ miss 1
unfolding scan
two_pages_miss = refl

evicted_is_oldest_example :
    (1 < length two_pages)
    × ((nth two_pages 0).page ≢ 2)
    × ((nth two_pages 0).count ≤ (nth two_pages 1).count)
evicted_is_oldest_example = evicted_is_oldest two_pages 2 1 0 (omega arith) two_pages_miss

-- As many calls as the cache has pages.
checks-stores_example :
    let e = checks ram (length written.ext_cache) written in
    Holds ram e written_memory × Stored ram e written_memory × (e.token ≡ written.token)
checks-stores_example =
    checks-stores ram (length written.ext_cache) written written_memory written-Holds
      (dirty_count-le written.ext_cache)

-- A block over the border of two pages.
read-write_example :
    let (bytes, e) = Bytes.read ram (Bytes.write ram start 510 (1 ∷ 2 ∷ 3 ∷ 4 ∷ [])) 510 4 in
    (bytes ≡ 1 ∷ 2 ∷ 3 ∷ 4 ∷ [])
    × Holds ram e (store_all start_memory 510 (1 ∷ 2 ∷ 3 ∷ 4 ∷ []))
    × (e.token ≡ start.token)
unfolding init
read-write_example =
    read-write ram (1 ∷ 2 ∷ 3 ∷ 4 ∷ []) start start_memory 510 (omega arith) start-Holds

hi-AreStorable : AreStorable (72 ∷ 105 ∷ [])
hi-AreStorable = storable refl refl (storable refl refl none_left)

read_string-write_string_example :
    let (bytes, n, e) = read_string ram (write_string ram start 510 (72 ∷ 105 ∷ []) 8) 510 8 in
    (bytes ≡ 72 ∷ 105 ∷ 0 ∷ 0 ∷ [])
    × (n ≡ 2)
    × Holds ram e (store_all start_memory 510 (72 ∷ 105 ∷ 0 ∷ []))
unfolding init
read_string-write_string_example =
    read_string-write_string ram (72 ∷ 105 ∷ []) 8 8 start start_memory 510 hi-AreStorable
      (omega arith) (omega arith) (omega arith) (omega arith) (omega arith) start-Holds
