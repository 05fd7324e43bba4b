-- ===== src/Paginate/Pages.antt =====
-- Pages of a list, and the walk of a client from page to page.
use signoz_mcp_server.Base.{
  ℕ, zero, suc, ◌+◌, ◌-◌, ◌≤◌, ◌<◌, ◌≡◌, ap, inl, inr, true, false, Option, none, some, List, [],
  ◌++◌, arith, leb, if◌then◌else◌, length, take, drop, take_all, drop_all, length-drop,
  take-append-drop, drop-drop, Bool-cases,
}
use mathlib.Core.Option
use signoz_mcp_server.Base.Int.{ℤ, pos, negsuc, pos_part, ◌+ℤ◌, ◌≤ℤ◌, ◌<ℤ◌}
use signoz_mcp_server.Base.Word.{wrap64, max_int64}
use signoz_mcp_server.Base.Any.{Any}
use signoz_mcp_server.Paginate.{slice, array, wrap, parse_params, max_limit}
use signoz_mcp_server.Paginate.Bounds.{parse_params_bounds}

wrap64-add : (k l : ℕ) → k + l ≤ max_int64 → wrap64 (pos k +ℤ pos l) ≡ pos (k + l)
unfolding ◌+ℤ◌ wrap64
wrap64-add k l h = ground arith

module _ {A : Type 0} where
  slice_lem :
      (arr : List A) (k l : ℕ)
      → k ≤ l
      → l ≤ length arr
      → slice arr (pos k) (pos l) ≡ some (take (l - k) (drop k arr))
  unfolding slice
  slice_lem arr k l h fits = ground arith

  -- A page that begins past the end is empty, and one that begins before it is cut at the end.
  array_lem :
      (arr : List A) (k l : ℕ)
      → 1 ≤ l
      → length arr + l ≤ max_int64
      → array arr (pos k) (pos l) ≡ some (take l (drop k arr))
  unfolding array
  array_lem arr k l pos_l room = ground (
    arith,
    wrap64-add k l,
    drop_all k arr,
    take_all {A = A} l [],
    length-drop k arr,
    take_all l (drop k arr),
    take_all (length arr - k) (drop k arr),
  )

  -- What a client collects that follows `next_offset` while there is more.
  pub collect : ℕ → List A → ℤ → ℤ → Option (List A)
  collect zero arr offset limit = none
  collect (suc fuel) arr offset limit = elim (array arr offset limit) [
    | none ↦ none
    | some page ↦
        let meta = (wrap page (pos (length arr)) offset limit).pagination in
        let rest = collect fuel arr meta.next_offset limit in
        if meta.has_more then Option.map (λ more. page ++ more) rest else some page
  ]

  wrap_next :
      (page arr : List A) (k l : ℕ)
      → k + l ≤ max_int64
      → ((wrap page (pos (length arr)) (pos k) (pos l)).pagination.next_offset
          ≡ (if leb (length arr) (k + l) then negsuc 0 else pos (k + l)))
        × ((wrap page (pos (length arr)) (pos k) (pos l)).pagination.has_more
            ≡ (if leb (length arr) (k + l) then false else true))
  unfolding wrap
  wrap_next page arr k l room = (ground (arith, wrap64-add k l), ground (arith, wrap64-add k l))

  collect_from :
      (fuel : ℕ) (arr : List A) (k l : ℕ)
      → 1 ≤ l
      → length arr + l ≤ max_int64
      → k ≤ length arr
      → length arr < fuel + k
      → collect fuel arr (pos k) (pos l) ≡ some (drop k arr)
  unfolding collect
  collect_from zero arr k l pos_l room inside enough = absurd (omega arith)
  collect_from (suc fuel) arr k l pos_l room inside enough =
      elim (Bool-cases (leb (length arr) (k + l))) [
        | inl last ↦
            rw
              (
                array_lem arr k l pos_l room,
                collect,
                (wrap_next (take l (drop k arr)) arr k l (omega arith)).1,
                last,
              )
              (ap some (take_all l (drop k arr) (ground (arith, length-drop k arr))))
        | inr more ↦
            rw
              (
                array_lem arr k l pos_l room,
                collect,
                (wrap_next (take l (drop k arr)) arr k l (ground arith)).1,
                (wrap_next (take l (drop k arr)) arr k l (ground arith)).0,
                more,
                collect_from fuel arr (k + l) l pos_l room (ground arith) (ground arith),
                ← drop-drop l k arr,
              )
              (ap some (take-append-drop l (drop k arr)))
      ]

-- A client that asks for the pages of a list one after the other, from offset 0 with a limit of
-- at least 1 and as many rounds as the list has items and one more, gets every item once and in
-- order. The list leaves room for the sum of its length and the limit in an `int`.
pub collect_all :
    {A : Type 0} (arr : List A) (limit : ℕ)
    → 1 ≤ limit
    → length arr + limit ≤ max_int64
    → collect (suc (length arr)) arr (pos 0) (pos limit) ≡ some arr
collect_all arr l pos_l room =
    collect_from (suc (length arr)) arr 0 l pos_l room (omega arith) (omega arith)

-- With the limit and the offset that a request's arguments are read as, a page never panics, and it
-- is the part of the list of at most `limit` items that begins at `offset`. The list is shorter than
-- the largest `int` by 1000 at least.
pub array-parse_params :
    {A : Type 0} (args : Any) (arr : List A)
    → length arr + 1000 ≤ max_int64
    → array arr (parse_params args).1 (parse_params args).0
      ≡ some (take (pos_part (parse_params args).0) (drop (pos_part (parse_params args).1) arr))
array-parse_params args arr room =
    at (parse_params args).0 (parse_params args).1 (parse_params_bounds args)
  where
    at :
        (limit offset : ℤ)
        → (pos 1 ≤ℤ limit) × (limit ≤ℤ max_limit) × (pos 0 ≤ℤ offset)
        → array arr offset limit ≡ some (take (pos_part limit) (drop (pos_part offset) arr))
    at (pos l) (pos k) b = array_lem arr k l (omega arith) (omega arith)
    at (pos l) (negsuc k) b = absurd (omega arith)
    at (negsuc l) offset b = absurd (omega arith)

-- Where the offset and the limit add up past the largest `int`, the sum wraps: the response says
-- that there is more, and its next offset is negative.
pub wrap_overflow :
    {A : Type 0} (page : List A) (total offset limit : ℕ)
    → offset ≤ max_int64
    → limit ≤ max_int64
    → max_int64 < offset + limit
    → ((wrap page (pos total) (pos offset) (pos limit)).pagination.has_more ≡ true)
      × ((wrap page (pos total) (pos offset) (pos limit)).pagination.next_offset <ℤ pos 0)
unfolding wrap wrap64 ◌+ℤ◌
wrap_overflow page total k l hk hl over = ground arith
