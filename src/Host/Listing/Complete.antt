-- ===== src/Host/Listing/Complete.antt =====
-- The client's walk against the server's pages: it ends, and it reads the whole list.
use mathlib.Core.List.{append_assoc}
use native.Mathlib.Decide.{dec_le}
use mcp_from_scratch.Pages.{catalog_page_size, decode_cursor, next_cursor, paginate}
use mcp_from_scratch.Pages.Cursors.{
  decode_cursor-next_cursor, next_cursor_injective, next_cursor_given,
}
use mcp_from_scratch.Host.Listing.{listed, list_all, serve_page}
use mcp_from_scratch.Base.{
  ℕ, zero, suc, ◌+◌, ◌-◌, ◌^◌, ◌≤◌, ◌<◌, min, String, ◌≡◌, refl, sym, ap, ◌∙◌, inl, inr, false,
  List, [], ◌∷◌, ◌++◌, arith, ◌==◌, eq_iff, Bool-cases, length, take, drop, length-drop,
  take-append-drop, member, All, ok,
}

module _ {A : Type 0} where
  drop-nil : (n : ℕ) → drop {A = A} n [] ≡ []
  drop-nil zero = refl
  drop-nil (suc n) = refl

  drop-drop : (m k : ℕ) (xs : List A) → drop k (drop m xs) ≡ drop (m + k) xs
  drop-drop zero k xs = let same : zero + k ≡ k = omega arith in rw same
  drop-drop (suc m) k [] = drop-nil k ∙ sym (drop-nil (suc m + k))
  drop-drop (suc m) k (x ∷ xs) =
      let same : suc m + k ≡ suc (m + k) = omega arith in rw same (drop-drop m k xs)

  take_all : (n : ℕ) (xs : List A) → length xs ≤ n → take n xs ≡ xs
  take_all zero [] h = refl
  take_all zero (x ∷ xs) h = absurd (omega arith)
  take_all (suc n) [] h = refl
  take_all (suc n) (x ∷ xs) h = ap (λ ys. x ∷ ys) (take_all n xs (omega arith))

  drop-length : (xs : List A) → drop (length xs) xs ≡ []
  drop-length [] = refl
  drop-length (x ∷ xs) = drop-length xs

-- The cursors seen so far belong to offsets up to a bound.
abbrev Earlier : ℕ → List String → Type 0
Earlier n = All (λ c. (m : ℕ) × (c ≡ next_cursor m) × (m ≤ n))

Earlier-mono : {m n : ℕ} (seen : List String) → m ≤ n → Earlier m seen → Earlier n seen
Earlier-mono [] h e = tt
Earlier-mono (c ∷ seen) h ((k, same, le), rest) = ((k, same, omega arith), Earlier-mono seen h rest)

not_seen :
    (n k : ℕ) (seen : List String)
    → n < k
    → k < 2 ^ 63
    → Earlier n seen
    → member (next_cursor k) seen ≡ false
not_seen n k [] h b e = refl
not_seen n k (c ∷ seen) h b ((m, same, le), rest) = elim (Bool-cases (c == next_cursor k)) [
  | inl hit ↦
      let clash =
        next_cursor_injective m k (omega arith) b (sym same ∙ (eq_iff c (next_cursor k)).0 hit) in
      absurd (omega arith)
  | inr miss ↦ rw miss (not_seen n k seen h b rest)
]

module _ {A : Type 0} (values : List A) (small : length values < 2 ^ 63) where
  last_page :
      (offset : ℕ) (found : List A)
      → offset ≤ length values
      → length values ≤ offset + catalog_page_size
      → found ++ drop offset values ≡ values
      → (page : List A) × (paginate values offset ≡ ok (page, "")) × (found ++ page ≡ values)
  unfolding paginate
  last_page offset found le last split =
      let stop : min (offset + 2) (length values) ≡ length values = omega arith in
      let whole =
        take_all (length values - offset) (drop offset values)
          (omega (arith, length-drop offset values)) in
      (drop offset values, rw (stop, whole) (ground arith), split)

  inner_page :
      (offset : ℕ) (found : List A)
      → offset + catalog_page_size < length values
      → found ++ drop offset values ≡ values
      → (page : List A) × (paginate values offset
          ≡ ok (page, next_cursor (offset + catalog_page_size)))
        × ((found ++ page) ++ drop (offset + catalog_page_size) values ≡ values)
  unfolding paginate
  inner_page offset found more split =
      let stop : min (offset + 2) (length values) ≡ offset + 2 = omega arith in
      let two : offset + 2 - offset ≡ 2 = omega arith in
      (
        take 2 (drop offset values),
        rw (stop, two) (ground arith),
        append_assoc found (take 2 (drop offset values)) (drop (offset + 2) values)
            ∙ rw (← drop-drop offset 2 values) (rw (take-append-drop 2 (drop offset values)) split),
      )

  answer :
      (cursor : String) (offset : ℕ) (page : List A) (next : String)
      → decode_cursor cursor ≡ ok offset
      → paginate values offset ≡ ok (page, next)
      → serve_page values cursor ≡ ok (page, next)
  unfolding serve_page
  answer cursor offset page next at served = rw at served

  list_all-from :
      (fuel offset : ℕ) (cursor : String) (seen : List String) (found : List A)
      → decode_cursor cursor ≡ ok offset
      → offset ≤ length values
      → length values < offset + fuel
      → Earlier offset seen
      → found ++ drop offset values ≡ values
      → list_all (serve_page values) fuel cursor seen found ≡ listed values
  unfolding list_all
  list_all-from zero offset cursor seen found at le enough old split = absurd (omega arith)
  list_all-from (suc fuel) offset cursor seen found at le enough old split =
      elim (dec_le (length values) (offset + 2)) [
        | yes last ↦
            let (page, served, whole) = last_page offset found le last split in
            rw (answer cursor offset page "" at served, list_all) (ap listed whole)
        | no more ↦
            let (page, served, rest) = inner_page offset found (omega arith) split in
            let stop = offset + 2 in
            rw (answer cursor offset page (next_cursor stop) at served, list_all)
              (rw
                (next_cursor_given stop, not_seen offset stop seen (omega arith) (omega arith) old)
                (list_all-from fuel stop (next_cursor stop) (next_cursor stop ∷ seen)
                  (found ++ page) (decode_cursor-next_cursor stop (omega arith)) (omega arith)
                  (omega arith) ((stop, refl, omega arith), Earlier-mono seen (omega arith) old)
                  rest))
      ]

  -- Against the server's own pages of a list of fewer than 2^63 items, the walk of the client ends
  -- within one request for each item and one more, never meets a cursor twice, and returns exactly
  -- the list, in its order.
  pub list_all-serve_page :
      (fuel : ℕ) → length values < fuel → list_all (serve_page values) fuel "" [] [] ≡ listed values
  list_all-serve_page fuel enough =
      list_all-from fuel 0 "" [] [] start (omega arith) (omega arith) tt refl
    where
      start : decode_cursor "" ≡ ok 0
      start = unfold decode_cursor in refl
