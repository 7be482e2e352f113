-- ===== src/Acpi/Search.antt =====
-- What the searches of kernel/driver/acpi.c find.
use omocha_os.Base.{
  ℕ, zero, suc, ◌+◌, ◌*◌, ◌/◌, ◌<◌, ◌≡◌, ◌≢◌, refl, sym, ap, ◌∙◌, ◌⊎◌, inl, inr, Bool, true, false,
  ◌&&◌, List, [], ◌∷◌, Bool-cases, subst, arith,
}
use mathlib.Core.Path.{fun_ext}
use omocha_os.Core.Run.{ok, assert-true}
use omocha_os.Base.Bytes.{long_at}
use omocha_os.Acpi.{
  is_rsdp, search_from, search_rsdp, is_sdt, same_bytes, search_entries, search_sdt, table_count,
}

-- `found` is the first of the `n` places `at 0`, `at 1`, … that fits, or 0 where none fits.
abbrev pub IsFirst : (fits : ℕ → Bool) → (at : ℕ → ℕ) → (n found : ℕ) → Type 0
IsFirst fits at n found =
    ((k : ℕ) × (k < n)
      × (found ≡ at k)
      × (fits (at k) ≡ true)
      × ((j : ℕ) → j < k → fits (at j) ≡ false))
    ⊎ ((found ≡ 0) × ((j : ℕ) → j < n → fits (at j) ≡ false))

-- Every `step` bytes from `p` on.
abbrev pub place : (p step j : ℕ) → ℕ
place p step j = p + step * j

first_here :
    (fits : ℕ → Bool) (at : ℕ → ℕ) (n found : ℕ)
    → found ≡ at 0
    → fits found ≡ true
    → IsFirst fits at (suc n) found
first_here fits at n found e h =
    inl (0, omega arith, e, ap fits (sym e) ∙ h, λ j l. absurd (omega arith))

before :
    (fits : ℕ → Bool) (at : ℕ → ℕ) (k : ℕ)
    → fits (at 0) ≡ false
    → ((j : ℕ) → j < k → fits (at (suc j)) ≡ false)
    → (j : ℕ) → j < suc k
    → fits (at j) ≡ false
before fits at k h rest zero l = h
before fits at k h rest (suc j) l = rest j (omega arith)

first_later :
    (fits : ℕ → Bool) (at next : ℕ → ℕ) (n found : ℕ)
    → ((j : ℕ) → next j ≡ at (suc j))
    → fits (at 0) ≡ false
    → IsFirst fits next n found
    → IsFirst fits at (suc n) found
first_later fits at next n found shift h (inl (k, l, e, f, b)) = inl (
  suc k,
  omega arith,
  e ∙ shift k,
  ap fits (sym (shift k)) ∙ f,
  before fits at k h (λ j m. ap fits (sym (shift j)) ∙ b j m),
)
first_later fits at next n found shift h (inr (e, b)) =
    inr (e, before fits at n h (λ j m. ap fits (sym (shift j)) ∙ b j m))

-- The same places, given otherwise.
moved :
    (fits : ℕ → Bool) (at at' : ℕ → ℕ) (n found : ℕ)
    → ((j : ℕ) → at j ≡ at' j)
    → IsFirst fits at n found
    → IsFirst fits at' n found
moved fits at at' n found same w = subst (λ (f : ℕ → ℕ). IsFirst fits f n found) (fun_ext same) w

search_from_lem :
    (n : ℕ) (bytes : ℕ → ℕ) (p : ℕ) → IsFirst (is_rsdp bytes) (place p 16) n (search_from n bytes p)
unfolding search_from
search_from_lem zero bytes p = inr (refl, λ j l. absurd (omega arith))
search_from_lem (suc n) bytes p = elim (Bool-cases (is_rsdp bytes p)) [
  | inl here ↦ rw here (first_here (is_rsdp bytes) (place p 16) n p (omega arith) here)
  | inr other ↦ rw other (
      first_later (is_rsdp bytes) (place p 16) (place (p + 16) 16) n (search_from n bytes (p + 16))
        (λ j. omega arith) (subst (λ (x : ℕ). is_rsdp bytes x ≡ false) {x = p} (omega arith) other)
        (search_from_lem n bytes (p + 16)))
]

search_entries_lem :
    (n : ℕ) (bytes : ℕ → ℕ) (rsdt i : ℕ) (sig : List ℕ)
    → IsFirst
        (λ ph. is_sdt bytes ph && same_bytes bytes ph sig)
        (λ j. long_at bytes (rsdt + 36 + 4 * (i + j)))
        n
        (search_entries n bytes rsdt i sig)
unfolding search_entries
search_entries_lem zero bytes rsdt i sig = inr (refl, λ j l. absurd (omega arith))
search_entries_lem (suc n) bytes rsdt i sig =
    let fits : ℕ → Bool = λ ph. is_sdt bytes ph && same_bytes bytes ph sig in
    let at : ℕ → ℕ = λ j. long_at bytes (rsdt + 36 + 4 * (i + j)) in
    let next : ℕ → ℕ = λ j. long_at bytes (rsdt + 36 + 4 * (i + 1 + j)) in
    let ph = long_at bytes (rsdt + 36 + 4 * i) in
    let same : ph ≡ at 0 =
      ap (λ (j : ℕ). long_at bytes (rsdt + 36 + 4 * j)) {x = i} (omega arith) in
    elim (Bool-cases (fits ph)) [
      | inl here ↦ rw here (first_here fits at n ph same here)
      | inr other ↦ rw other (
          first_later fits at next n (search_entries n bytes rsdt (i + 1) sig)
            (λ j. ap (λ (m : ℕ). long_at bytes (rsdt + 36 + 4 * m)) {x = i + 1 + j} (omega arith))
            (ap fits (sym same) ∙ other) (search_entries_lem n bytes rsdt (i + 1) sig))
    ]

-- With a root table that is there and valid, the search for a signature ends; it gives the first of
-- the tables that the root table lists which has the signature and a valid checksum, or NULL
-- exactly where none of them is such a table.
pub search_sdt-IsFirst :
    (debug : Bool) (bytes : ℕ → ℕ) (rsdt : ℕ) (sig : List ℕ)
    → rsdt ≢ 0
    → same_bytes bytes rsdt (b'R' ∷ b'S' ∷ b'D' ∷ b'T' ∷ []) ≡ true
    → is_sdt bytes rsdt ≡ true
    → (found : ℕ) × (search_sdt debug bytes rsdt sig ≡ ok found)
      × IsFirst
          (λ ph. is_sdt bytes ph && same_bytes bytes ph sig)
          (λ j. long_at bytes (rsdt + 36 + 4 * j))
          (table_count bytes rsdt)
          found
unfolding search_sdt
search_sdt-IsFirst debug bytes rsdt sig there root sum =
    let n = table_count bytes rsdt in
    let fits : ℕ → Bool = λ ph. is_sdt bytes ph && same_bytes bytes ph sig in
    (
      search_entries n bytes rsdt 0 sig,
      ground (arith, there, root, sum, assert-true debug),
      moved fits (λ j. long_at bytes (rsdt + 36 + 4 * (0 + j)))
          (λ j. long_at bytes (rsdt + 36 + 4 * j)) n (search_entries n bytes rsdt 0 sig)
          (λ j. ap (λ (m : ℕ). long_at bytes (rsdt + 36 + 4 * m)) {x = 0 + j} (omega arith))
          (search_entries_lem n bytes rsdt 0 sig),
    )

-- The search for the root pointer gives the first place, 16 bytes apart, with its signature and a
-- valid checksum, or 0 where there is none.
search_rsdp-IsFirst :
    (bytes : ℕ → ℕ) (start max_offset : ℕ)
    → IsFirst
        (is_rsdp bytes)
        (place start 16)
        ((max_offset + 15) / 16)
        (search_rsdp bytes start max_offset)
unfolding search_rsdp
search_rsdp-IsFirst bytes start max_offset = search_from_lem ((max_offset + 15) / 16) bytes start
