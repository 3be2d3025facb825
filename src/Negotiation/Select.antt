-- ===== src/Negotiation/Select.antt =====
-- The nested loops of `select` against a description with no flag and no early return.
use thrussh_mod.Base.{
  Bool, true, false, ◌||◌, Option, none, some, List, [], ◌∷◌, ◌++◌, Bytes, equal, ◌≡◌, refl, ◌≢◌,
  ap, ◌∙◌, sym, arith, if◌then◌else◌, equal_iff,
}
use thrussh_mod.Wire.{join}
use thrussh_mod.Negotiation.{
  Scan, found, go_on, scan, select_loop, server_select, client_select, split,
}

abbrev pub elem : Bytes → List Bytes → Bool
elem x [] = false
elem x (y ∷ ys) = equal x y || elem x ys

-- The first of `xs` that is in `ys`.
abbrev pub first_common : List Bytes → List Bytes → Option Bytes
first_common [] ys = none
first_common (x ∷ xs) ys = if elem x ys then some x else first_common xs ys

abbrev pub heads_equal : List Bytes → List Bytes → Bool
heads_equal (x ∷ xs) (y ∷ ys) = equal x y
heads_equal _ _ = false

-- The choice of RFC 4253: the first name of the client that the server has, and whether it is the
-- first of both.
abbrev pub with_flag : Bool → Option Bytes → Option (Bool × Bytes)
with_flag b none = none
with_flag b (some x) = some (b, x)

abbrev pub choice : List Bytes → List Bytes → Option (Bool × Bytes)
choice client server = with_flag (heads_equal client server) (first_common client server)

-- `pick` returns the name on which the two sides agree.
abbrev Picks : (Bytes → Bytes → Bytes) → Type 0
Picks pick = (x : Bytes) → pick x x ≡ x

module _ (pick : Bytes → Bytes → Bytes) (picks : Picks pick) where
  abbrev scan_result : Bool → Bytes → List Bytes → Scan
  scan_result both x [] = go_on both
  scan_result both x (y ∷ ys) =
      if equal x y then found both x else if elem x ys then found false x else go_on false

  scan-false :
      (x : Bytes) (ys : List Bytes)
      → scan pick false x ys ≡ (if elem x ys then found false x else go_on false)
  unfolding scan
  scan-false x [] = refl
  scan-false x (y ∷ ys) = ground (arith, scan-false x ys, equal_iff x y, picks x)

  scan-scan_result :
      (both : Bool) (x : Bytes) (ys : List Bytes) → scan pick both x ys ≡ scan_result both x ys
  unfolding scan
  scan-scan_result both x [] = refl
  scan-scan_result both x (y ∷ ys) = ground (arith, scan-false x ys, equal_iff x y, picks x)

  select_loop-false :
      (xs ys : List Bytes) → select_loop pick false xs ys ≡ with_flag false (first_common xs ys)
  unfolding select_loop
  select_loop-false [] ys = refl
  select_loop-false (x ∷ xs) ys = ground (arith, scan-false x ys, select_loop-false xs ys)

  no_common : (xs : List Bytes) → first_common xs [] ≡ none
  no_common [] = refl
  no_common (x ∷ xs) = no_common xs

  select_loop-empty : (both : Bool) (xs : List Bytes) → select_loop pick both xs [] ≡ none
  unfolding select_loop scan
  select_loop-empty both [] = refl
  select_loop-empty both (x ∷ xs) = select_loop-empty both xs

  pub select_loop-choice : (xs ys : List Bytes) → select_loop pick true xs ys ≡ choice xs ys
  unfolding select_loop
  select_loop-choice [] ys = refl
  select_loop-choice (x ∷ xs) [] =
      select_loop-empty true xs ∙ sym (ap (with_flag false) (no_common xs))
  select_loop-choice (x ∷ xs) (y ∷ ys) =
      ground (arith, scan-false x ys, select_loop-false xs (y ∷ ys), picks x, equal_iff x y)

-- `Server::select` returns the first name of the client's list that the server has, with the flag
-- set exactly when that is the first name of both lists; it returns nothing when they share none.
pub server_select-choice :
    (server_list : List Bytes) (client_list : Bytes)
    → server_select server_list client_list ≡ choice (split client_list) server_list
unfolding server_select
server_select-choice server_list client_list =
    select_loop-choice (λ c s. s) (λ x. refl) (split client_list) server_list

pub client_select-choice :
    (client_list : List Bytes) (server_list : Bytes)
    → client_select client_list server_list ≡ choice client_list (split server_list)
unfolding client_select
client_select-choice client_list server_list =
    select_loop-choice (λ c s. c) (λ x. refl) client_list (split server_list)

-- A name holds no comma, and a list of names is not empty.
abbrev pub IsName : Bytes → Type 0
IsName [] = Unit
IsName (c ∷ cs) = (c ≢ b',') × IsName cs

abbrev pub AllNames : List Bytes → Type 0
AllNames [] = Unit
AllNames (x ∷ xs) = IsName x × AllNames xs

abbrev pub IsNameList : List Bytes → Type 0
IsNameList [] = ⊥
IsNameList (x ∷ xs) = AllNames (x ∷ xs)

split-IsName : (x : Bytes) → IsName x → split x ≡ x ∷ []
unfolding split
split-IsName [] h = refl
split-IsName (c ∷ cs) h = ground (arith, split-IsName cs h.1)

split-append : (x rest : Bytes) → IsName x → split (x ++ (b',' ∷ rest)) ≡ x ∷ split rest
unfolding split
split-append [] rest h = refl
split-append (c ∷ cs) rest h = ground (arith, split-append cs rest h.1)

-- The encoded list splits into its names.
pub split-join : (names : List Bytes) → IsNameList names → split (join names) ≡ names
split-join [] h = absurd h
split-join (x ∷ []) h = split-IsName x h.0
split-join (x ∷ y ∷ ys) h =
    split-append x (join (y ∷ ys)) h.0 ∙ ap (◌∷◌ x) (split-join (y ∷ ys) h.1)

-- From one pair of lists the two sides make one choice, each with the other's list as it is sent.
pub client_select-server_select :
    (client server : List Bytes)
    → IsNameList client
    → IsNameList server
    → client_select client (join server) ≡ server_select server (join client)
client_select-server_select client server hc hs =
    client_select-choice client (join server)
    ∙ ap (choice client) (split-join server hs)
    ∙ ap (λ l. choice l server) (sym (split-join client hc))
    ∙ sym (server_select-choice server (join client))
