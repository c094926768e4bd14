-- ===== src/Protocol/Listing.antt =====
-- The pages of `sf.object.list` in src/protocol.rs, over the table's map in the order of its IDs.
pub mod Following
pub mod Pages
use spinfoam.Prelude.{
  ℕ, zero, suc, Bool, true, false, List, [], ◌∷◌, ◌++◌, Option, none, some, Result, ok, err, ◌||◌,
  ◌==◌, ltb, if◌then◌else◌, take, drop,
}
use spinfoam.Text.{Text, text}
use spinfoam.Text.Order.{less, ordered}
use spinfoam.Json.{Value, null, string, array, Items, nil, cons, field, end}
use spinfoam.Error.{RpcResult, params_error}
use spinfoam.Runtime.Table.{Entry, Runtime, System, status}

-- `list.after.as_ref().is_none_or(|after| *id > after)`
abbrev pub follows : Option Text → Text → Bool
follows none id = true
follows (some after) id = less after id

module _ {V : Type 0} where
  abbrev pub following : Option Text → List (Text × V) → List (Text × V)
  following after [] = []
  following after ((id, v) ∷ m) =
      let rest = following after m in if follows after id then (id, v) ∷ rest else rest

  abbrev pub last_key : List (Text × V) → Option Text
  last_key [] = none
  last_key ((id, v) ∷ []) = some id
  last_key ((id, v) ∷ e ∷ m) = last_key (e ∷ m)

  -- The rest behind a page: without one there is no next page.
  abbrev pub next_after : List (Text × V) → List (Text × V) → Option Text
  next_after page [] = none
  next_after page (e ∷ rest) = last_key page

  -- A page, and the ID to go on after.
  unfoldable pub page : Option Text → ℕ → List (Text × V) → List (Text × V) × Option Text
  unfolding less
  page after limit m =
      let items = following after m in
      let shown = take limit items in (shown, next_after shown (drop limit items))

  -- A client that asks for page after page, from an ID on, for so many pages at most: what it gets,
  -- and whether it came to the end.
  unfoldable pub walk : ℕ → Option Text → ℕ → List (Text × V) → List (Text × V) × Bool
  unfolding page
  walk zero after limit m = ([], false)
  walk (suc n) after limit m =
      let (shown, next) = page after limit m in
      elim next [
        | none ↦ (shown, true)
        | some id ↦ let (rest, complete) = walk n (some id) limit m in (shown ++ rest, complete)
      ]

module _ {N : Type 0} where
  -- The entries of the table, without those that were unloaded.
  abbrev pub listed_only : List (Text × Entry N) → List (Text × Entry N)
  listed_only [] = []
  listed_only ((id, e) ∷ m) = let rest = listed_only m in if e.listed then (id, e) ∷ rest else rest

  abbrev pub statuses : (ℕ → N) → List (Text × Entry N) → Items N
  statuses from_u64 [] = nil
  statuses from_u64 ((id, e) ∷ m) = cons (status from_u64 id e) (statuses from_u64 m)

  abbrev pub next_value : Option Text → Value N
  next_value none = null
  next_value (some id) = string id

  -- The answer to `sf.object.list`.
  unfoldable pub object_list : (ℕ → N) → Option Text → ℕ → Runtime N → RpcResult N
  unfolding page ordered
  object_list from_u64 after limit rt =
      if limit == 0 || ltb 256 limit
      then err (params_error (text "limit must be 1..256"))
      else (let (shown, next) = page after limit (ordered (listed_only rt.entries)) in
          ok (
            Value.object (
              field (text "objects") (array (statuses from_u64 shown))
                (field (text "next") (next_value next) end))))
