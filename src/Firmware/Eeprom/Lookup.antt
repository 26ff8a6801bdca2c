-- ===== src/Firmware/Eeprom/Lookup.antt =====
-- What the search of `ExtCache_Fill` finds, and what ageing leaves alone.
use power_monitor.Prelude.{
  ℕ, zero, suc, ◌+◌, ◌≤◌, ◌<◌, ◌≡◌, ◌≢◌, ◌⊎◌, inl, inr, refl, ap, List, [], ◌∷◌, length, get_or,
  arith, ltb, ◌==◌, Bool-cases, ==→eq,
}
use power_monitor.Firmware.Eeprom.{CachePage, blank_page, age_page, age_cache, hit, miss, scan}

abbrev pub nth : List CachePage → ℕ → CachePage
nth ps i = get_or ps i blank_page

-- A hit is a page of the list with the number that is looked for.
pub scan-hit :
    (ps : List CachePage) (page i oldest age k : ℕ)
    → scan ps page i oldest age ≡ hit k
    → (j : ℕ) × (k ≡ i + j) × (j < length ps) × ((nth ps j).page ≡ page)
unfolding scan
scan-hit [] page i oldest age k h = absurd (ground arith)
scan-hit (p ∷ ps) page i oldest age k h = elim (Bool-cases (p.page == page)) [
  | inl e ↦ (0, ground arith, omega arith, ==→eq _ _ e)
  | inr e ↦
      let (j, at, inside, same) = scan-hit ps page (i + 1) _ _ k (rw e at h) in
      (suc j, omega arith, omega arith, same)
]

-- How the search ends where no page matches.
pub record Oldest (ps : List CachePage) (page i oldest age k : ℕ) : Type 0 where
  pub absent : (j : ℕ) → j < length ps → (nth ps j).page ≢ page
  pub place :
      ((k ≡ oldest) × ((j : ℕ) → j < length ps → (nth ps j).count ≤ age))
      ⊎ ((n : ℕ) × (k ≡ i + n)
          × (n < length ps)
          × (age < (nth ps n).count)
          × ((j : ℕ) → j < length ps → (nth ps j).count ≤ (nth ps n).count))

absent-cons :
    (p : CachePage) (ps : List CachePage) (page : ℕ)
    → p.page ≢ page
    → ((j : ℕ) → j < length ps → (nth ps j).page ≢ page)
    → (j : ℕ) → j < length (p ∷ ps)
    → (nth (p ∷ ps) j).page ≢ page
absent-cons p ps page ne rest zero lt = ne
absent-cons p ps page ne rest (suc j) lt = rest j (omega arith)

counts-cons :
    (p : CachePage) (ps : List CachePage) (age : ℕ)
    → p.count ≤ age
    → ((j : ℕ) → j < length ps → (nth ps j).count ≤ age)
    → (j : ℕ) → j < length (p ∷ ps)
    → (nth (p ∷ ps) j).count ≤ age
counts-cons p ps age le rest zero lt = le
counts-cons p ps age le rest (suc j) lt = rest j (omega arith)

-- The head is younger than the oldest page so far.
Oldest-skip :
    (p : CachePage) (ps : List CachePage) (page i oldest age k : ℕ)
    → p.page ≢ page
    → p.count ≤ age
    → Oldest ps page (i + 1) oldest age k
    → Oldest (p ∷ ps) page i oldest age k
Oldest-skip p ps page i oldest age k ne le o = record {
  absent = absent-cons p ps page ne o.absent;
  place = elim o.place [
    | inl (same, bound) ↦ inl (same, counts-cons p ps age le bound)
    | inr (n, at, inside, above, bound) ↦
        inr (suc n, omega arith, omega arith, above, counts-cons p ps _ (omega arith) bound)
  ];
}

-- The head is the oldest page so far.
Oldest-take :
    (p : CachePage) (ps : List CachePage) (page i oldest age k : ℕ)
    → p.page ≢ page
    → age < p.count
    → Oldest ps page (i + 1) i p.count k
    → Oldest (p ∷ ps) page i oldest age k
Oldest-take p ps page i oldest age k ne lt o = record {
  absent = absent-cons p ps page ne o.absent;
  place = elim o.place [
    | inl (same, bound) ↦
        inr (0, omega arith, omega arith, lt, counts-cons p ps p.count (omega arith) bound)
    | inr (n, at, inside, above, bound) ↦
        inr (suc n, omega arith, omega arith, omega arith, counts-cons p ps _ (omega arith) bound)
  ];
}

pub scan-miss :
    (ps : List CachePage) (page i oldest age k : ℕ)
    → scan ps page i oldest age ≡ miss k
    → Oldest ps page i oldest age k
unfolding scan
scan-miss [] page i oldest age k h = record {
  absent = λ j lt. absurd (omega arith);
  place = inl (ground arith, λ j lt. absurd (omega arith));
}
scan-miss (p ∷ ps) page i oldest age k h = elim (Bool-cases (p.page == page)) [
  | inl e ↦ absurd (ground arith)
  | inr e ↦ elim (Bool-cases (ltb age p.count)) [
    | inl older ↦
        Oldest-take p ps page i oldest age k (ground arith) (ground arith)
          (scan-miss ps page (i + 1) i p.count k (rw (e, older) at h))
    | inr younger ↦
        Oldest-skip p ps page i oldest age k (ground arith) (ground arith)
          (scan-miss ps page (i + 1) oldest age k (rw (e, younger) at h))
  ]
]

pub scan_evicts_oldest :
    (ps : List CachePage) (page k : ℕ)
    → 0 < length ps
    → scan ps page 0 0 (nth ps 0).count ≡ miss k
    → (k < length ps)
      × ((j : ℕ) → j < length ps → ((nth ps j).page ≢ page) × ((nth ps j).count ≤ (nth ps k).count))
scan_evicts_oldest ps page k pos h =
    let o = scan-miss ps page 0 0 (nth ps 0).count k h in
    elim o.place [
      | inl (e, bound) ↦ rw e (pos, λ j lt. (o.absent j lt, bound j lt))
      | inr (n, e, inside, above, bound) ↦
          let e' : k ≡ n = omega arith in rw e' (inside, λ j lt. (o.absent j lt, bound j lt))
    ]

-- Where the search of `ExtCache_Fill` ends without a hit, the page at any index of the cache has
-- not the number that was looked for, and its count is at most that of the page to be replaced,
-- whose index lies in the cache.
pub evicted_is_oldest :
    (ps : List CachePage) (page k j : ℕ)
    → j < length ps
    → scan ps page 0 0 (nth ps 0).count ≡ miss k
    → (k < length ps) × ((nth ps j).page ≢ page) × ((nth ps j).count ≤ (nth ps k).count)
evicted_is_oldest ps page k j lt h =
    let (inside, others) = scan_evicts_oldest ps page k (omega arith) h in
    (inside, (others j lt).0, (others j lt).1)

-- Ageing changes counts only.
pub record SamePage (p q : CachePage) : Type 0 where
  pub page : p.page ≡ q.page
  pub dirty : p.dirty ≡ q.dirty
  pub buf : p.buf ≡ q.buf

pub length-age_cache : (ps : List CachePage) → length (age_cache ps) ≡ length ps
unfolding age_cache
length-age_cache [] = refl
length-age_cache (p ∷ ps) = ap suc (length-age_cache ps)

pub age_cache-SamePage : (ps : List CachePage) (j : ℕ) → SamePage (nth (age_cache ps) j) (nth ps j)
unfolding age_cache age_page
age_cache-SamePage [] j = record { page = refl; dirty = refl; buf = refl }
age_cache-SamePage (p ∷ ps) zero = ground arith
age_cache-SamePage (p ∷ ps) (suc j) = age_cache-SamePage ps j
