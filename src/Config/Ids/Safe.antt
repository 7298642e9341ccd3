-- ===== src/Config/Ids/Safe.antt =====
-- An allocated id is free and safe as the name of a file.
use aviationwx_bridge.Prelude.{
  All, All-append, All-take, Bool, Bool-cases, List, [], arith, false, inl, inr, length,
  length-append, ltb, ltb→lt, refl, subst, suc, take, true, zero, ℕ, ◌%◌, ◌++◌, ◌+◌, ◌/◌, ◌<◌, ◌==◌,
  ◌∷◌, ◌≡◌, ◌≤◌, ◌⊎◌,
}
use aviationwx_bridge.Queue.Names.{Name, decimal, decimal_fuel}
use aviationwx_bridge.Scheduler.Upload.Transfer.{contains_text}
use aviationwx_bridge.Config.Ids.{
  all_id_bytes, allocate_loop, allocate_unique_id, base_or, candidate, cons_trimmed, flush,
  is_id_byte, is_slug_byte, join, max_slug_len, slug_id_from_name, slug_parts, trim_right,
  validate_config_file_id,
}

abbrev pub IsId : Name → Type 0
IsId s = All (λ c. is_id_byte c ≡ true) s

flush-IsId :
    (cur : Name) (parts : List Name) → IsId cur → All IsId parts → All IsId (flush cur parts)
flush-IsId [] parts h k = k
flush-IsId (c ∷ cur) parts h k = All-append IsId parts ((c ∷ cur) ∷ []) k (h, tt)

slug_parts-IsId :
    (lower : ℕ → ℕ) (cur : Name) (parts : List Name) (s : Name)
    → IsId cur
    → All IsId parts
    → All IsId (slug_parts lower cur parts s)
unfolding slug_parts
slug_parts-IsId lower cur parts [] h k = flush-IsId cur parts h k
slug_parts-IsId lower cur parts (r ∷ s) h k = elim (Bool-cases (is_slug_byte (lower r))) [
  | inl e ↦
      let byte : is_id_byte (lower r) ≡ true = rw e refl in
      rw e (
        slug_parts-IsId lower (cur ++ (lower r ∷ [])) parts s
          (All-append (λ c. is_id_byte c ≡ true) cur (lower r ∷ []) h (byte, tt)) k)
  | inr e ↦ rw e (slug_parts-IsId lower [] (flush cur parts) s tt (flush-IsId cur parts h k))
]

join-IsId : (ps : List Name) → All IsId ps → IsId (join ps)
join-IsId [] h = tt
join-IsId (p ∷ []) h = h.0
join-IsId (p ∷ q ∷ ps) h =
    All-append (λ c. is_id_byte c ≡ true) p (b'-' ∷ join (q ∷ ps)) h.0
      (refl, join-IsId (q ∷ ps) h.1)

cons_trimmed-IsId : (c : ℕ) (s : Name) → is_id_byte c ≡ true → IsId s → IsId (cons_trimmed c s)
cons_trimmed-IsId c [] h k = elim (Bool-cases (c == b'-')) [
  | inl e ↦ rw e tt
  | inr e ↦ rw e (h, tt)
]
cons_trimmed-IsId c (d ∷ s) h k = (h, k)

trim_right-IsId : (s : Name) → IsId s → IsId (trim_right s)
trim_right-IsId [] h = tt
trim_right-IsId (c ∷ s) h = cons_trimmed-IsId c (trim_right s) h.0 (trim_right-IsId s h.1)

slug_id_from_name-IsId : (lower : ℕ → ℕ) (name : Name) → IsId (slug_id_from_name lower name)
unfolding slug_id_from_name
slug_id_from_name-IsId lower name =
    let out = join (slug_parts lower [] [] name) in
    let bytes = join-IsId (slug_parts lower [] [] name) (slug_parts-IsId lower [] [] name tt tt) in
    elim (Bool-cases (ltb max_slug_len (length out))) [
      | inl e ↦ rw e (
          trim_right-IsId (take max_slug_len out)
            (All-take (λ c. is_id_byte c ≡ true) max_slug_len out bytes))
      | inr e ↦ rw e bytes
    ]

digit-IsId : (d : ℕ) → d < 10 → is_id_byte (b'0' + d) ≡ true
digit-IsId d h = ground arith

decimal_fuel-IsId : (fuel n : ℕ) → IsId (decimal_fuel fuel n)
unfolding decimal_fuel
decimal_fuel-IsId zero n = tt
decimal_fuel-IsId (suc fuel) n = elim (Bool-cases (ltb n 10)) [
  | inl e ↦ rw e (digit-IsId n (ltb→lt n 10 e), tt)
  | inr e ↦ rw e (
      All-append (λ c. is_id_byte c ≡ true) (decimal_fuel fuel (n / 10)) ((b'0' + n % 10) ∷ [])
        (decimal_fuel-IsId fuel (n / 10)) (digit-IsId (n % 10) (omega arith), tt))
]

-- an id that is not empty
abbrev IsSome : Name → Type 0
IsSome s = (0 < length s) × IsId s

IsSome-append : (s t : Name) → IsSome s → IsId t → IsSome (s ++ t)
IsSome-append s t h k =
    (omega (arith, length-append s t, h.0), All-append (λ c. is_id_byte c ≡ true) s t h.1 k)

candidate-IsSome : (base : Name) (i : ℕ) → IsSome base → IsSome (candidate base i)
unfolding candidate decimal
candidate-IsSome base i h = elim (Bool-cases (i == 0)) [
  | inl e ↦ rw e h
  | inr e ↦ rw e (
      IsSome-append base (b'-' ∷ decimal (i + 1)) h (refl, decimal_fuel-IsId (suc (i + 1)) (i + 1)))
]

allocate_loop-IsSome :
    (taken : Name → Bool) (base : Name) (rounds i : ℕ)
    → IsSome base
    → IsSome (allocate_loop taken base rounds i)
unfolding allocate_loop
allocate_loop-IsSome taken base zero i h =
    IsSome-append base (b'-' ∷ b'x' ∷ []) h (refl, (refl, tt))
allocate_loop-IsSome taken base (suc rounds) i h = elim (Bool-cases (taken (candidate base i))) [
  | inl e ↦ rw e (allocate_loop-IsSome taken base rounds (i + 1) h)
  | inr e ↦ rw e (candidate-IsSome base i h)
]

-- free, or every candidate is taken
abbrev pub IsFree : (Name → Bool) → Name → ℕ → ℕ → Name → Type 0
IsFree taken base rounds i id =
    (taken id ≡ false) ⊎ ((k : ℕ) → i ≤ k → k < i + rounds → taken (candidate base k) ≡ true)

at_index :
    (taken : Name → Bool) (base : Name) (i k : ℕ)
    → taken (candidate base i) ≡ true
    → i ≡ k
    → taken (candidate base k) ≡ true
at_index taken base i k h e = subst (λ x. taken (candidate base x) ≡ true) e h

allocate_loop-IsFree :
    (taken : Name → Bool) (base : Name) (rounds i : ℕ)
    → IsFree taken base rounds i (allocate_loop taken base rounds i)
unfolding allocate_loop
allocate_loop-IsFree taken base zero i = inr (λ k a b. absurd (omega arith))
allocate_loop-IsFree taken base (suc rounds) i = elim (Bool-cases (taken (candidate base i))) [
  | inr e ↦ rw e (inl e)
  | inl e ↦ elim (allocate_loop-IsFree taken base rounds (i + 1)) [
    | inl f ↦ rw e (inl f)
    | inr f ↦ rw e (
        inr (λ k a b. elim (Bool-cases (i == k)) [
          | inl z ↦ at_index taken base i k e (ground arith)
          | inr z ↦ f k (ground arith) (omega arith)
        ]))
  ]
]

no_bad_byte : (a : ℕ) (p s : Name) → is_id_byte a ≡ false → IsId s → contains_text (a ∷ p) s ≡ false
no_bad_byte a p [] h k = refl
no_bad_byte a p (c ∷ s) h k =
    let differs : (a == c) ≡ false = other_byte a c h k.0 in rw differs (no_bad_byte a p s h k.1)
  where
    other_byte : (x y : ℕ) → is_id_byte x ≡ false → is_id_byte y ≡ true → (x == y) ≡ false
    other_byte x y u v = ground arith

all_id_bytes-IsId : (s : Name) → IsId s → all_id_bytes s ≡ true
all_id_bytes-IsId [] h = refl
all_id_bytes-IsId (c ∷ s) h = rw h.0 (all_id_bytes-IsId s h.1)

validate-IsSome :
    (is_local : Name → Bool) (id : Name)
    → IsSome id
    → is_local id ≡ true
    → validate_config_file_id is_local id ≡ true
unfolding validate_config_file_id
validate-IsSome is_local [] h l = absurd (omega (arith, h.0))
validate-IsSome is_local (c ∷ s) h l =
    rw
      (
        no_bad_byte b'/' [] (c ∷ s) refl h.1,
        no_bad_byte 92 [] (c ∷ s) refl h.1,
        no_bad_byte b'.' (b'.' ∷ []) (c ∷ s) refl h.1,
        l,
      )
      (all_id_bytes-IsId (c ∷ s) h.1)

base_or-IsSome : (default s : Name) → IsSome default → IsId s → IsSome (base_or default s)
base_or-IsSome default [] h k = h
base_or-IsSome default (c ∷ s) h k = (omega arith, k)

-- Whatever the display name, the id that is allocated for it passes the validation of file names, and
-- no other camera or station has it, unless all thousand candidates are taken. The name for an empty
-- slug is one of letters, digits and hyphens, and such names are local paths.
pub allocate_unique_id_lem :
    (is_local : Name → Bool) (lower : ℕ → ℕ) (default : Name) (taken : Name → Bool) (name : Name)
    → ((s : Name) → 0 < length s → IsId s → is_local s ≡ true)
    → 0 < length default
    → IsId default
    → let id = allocate_unique_id lower default taken name in
      (validate_config_file_id is_local id ≡ true)
      × IsFree taken (base_or default (slug_id_from_name lower name)) 1000 0 id
unfolding allocate_unique_id
allocate_unique_id_lem is_local lower default taken name local some_byte bytes =
    let base = base_or default (slug_id_from_name lower name) in
    let safe = allocate_loop-IsSome taken base 1000 0 (
      base_or-IsSome default (slug_id_from_name lower name) (some_byte, bytes)
        (slug_id_from_name-IsId lower name)) in
    (
      validate-IsSome is_local (allocate_loop taken base 1000 0) safe
          (local (allocate_loop taken base 1000 0) safe.0 safe.1),
      allocate_loop-IsFree taken base 1000 0,
    )
