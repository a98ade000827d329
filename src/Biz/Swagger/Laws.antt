-- ===== src/Biz/Swagger/Laws.antt =====
-- The operations that are read from a document are well-formed and sorted.
use Prim.Native.Char.{Char}
use Prim.Native.String.{String}
use Prim.Native.String.count
use permission_center_go.Common.{
  ℕ, zero, suc, ◌≡◌, ◌≤◌, refl, sym, ap, ◌∙◌, Bool, true, false, not, ◌&&◌, ltb, ltb→le, Option,
  none, some, List, [], ◌∷◌, is_empty, Result, ok, arith, Bool-cases, inl, inr, subst, All,
  >>=-eq-ok, ◌>>=◌, refusal_passed, ok-injective,
}
use permission_center_go.Text.{trim_space, is_blank, count, trim_right_by, fields_func}
use permission_center_go.Biz.Endpoint.{
  ApiEndpoint, controller_max_length, is_api_endpoint_http_method,
}
use permission_center_go.Biz.Endpoint.Import.{SwaggerOperation}
use permission_center_go.Policy.Compile.{insert, sort}
use permission_center_go.Biz.Swagger.Sorted.{IsSorted, sort-IsSorted, operation_lt-IsWeakOrder}
use permission_center_go.Biz.Swagger.{
  Operation, is_kept, replace_runs, is_edge, trim_left_by, trim_by, take_runes, bounded,
  sanitize_swagger_controller, first_part, operation_id_controller, untagged, controller_by,
  swagger_controller, Document, PathItem, is_supported, is_separator, operation_of, operations,
  validate_swagger_operation, collect_item, collect, sorted_operations, parse_swagger_operations,
  operation_lt,
}

-- Every character of the text passes.
abbrev pub all_char : (Char → Bool) → String → Bool
all_char p String.[] = true
all_char p (String.◌∷◌ c s) = p c && all_char p s

all_char-replace_runs :
    (inside : Bool) (s : String) → all_char is_kept (replace_runs inside s) ≡ true
unfolding replace_runs is_kept
all_char-replace_runs inside String.[] = refl
all_char-replace_runs true (String.◌∷◌ c s) =
    ground (arith, all_char-replace_runs true s, all_char-replace_runs false s)
all_char-replace_runs false (String.◌∷◌ c s) =
    ground (arith, all_char-replace_runs true s, all_char-replace_runs false s)

all_char-trim_left_by :
    (p q : Char → Bool) (s : String) → all_char q s ≡ true → all_char q (trim_left_by p s) ≡ true
unfolding trim_left_by
all_char-trim_left_by p q String.[] h = refl
all_char-trim_left_by p q (String.◌∷◌ c s) h =
    ground (arith, all_char-trim_left_by p q s (ground arith))

all_char-trim_right_by :
    (p q : Char → Bool) (s : String) → all_char q s ≡ true → all_char q (trim_right_by p s) ≡ true
unfolding trim_right_by
all_char-trim_right_by p q String.[] h = refl
all_char-trim_right_by p q (String.◌∷◌ c s) h =
    ground (arith, all_char-trim_right_by p q s (ground arith))

all_char-take_runes :
    (q : Char → Bool) (n : ℕ) (s : String)
    → all_char q s ≡ true
    → all_char q (take_runes n s) ≡ true
unfolding take_runes
all_char-take_runes q zero s h = refl
all_char-take_runes q (suc n) String.[] h = refl
all_char-take_runes q (suc n) (String.◌∷◌ c s) h =
    ground (arith, all_char-take_runes q n s (ground arith))

count-take_runes : (n : ℕ) (s : String) → count (take_runes n s) ≤ n
unfolding take_runes
count-take_runes zero s = omega arith
count-take_runes (suc n) String.[] = omega arith
count-take_runes (suc n) (String.◌∷◌ c s) =
    ground (arith, count.cons c (take_runes n s), count-take_runes n s)

present_take : (n : ℕ) (s : String) → 1 ≤ n → is_blank s ≡ false → is_blank (take_runes n s) ≡ false
unfolding take_runes
present_take zero s h k = absurd (ground arith)
present_take (suc n) String.[] h k = absurd cc
present_take (suc n) (String.◌∷◌ c s) h k = refl

-- The controller of an endpoint, as an import names it: 1 to 200 code points, all of them of the
-- letters a to z, the digits, the dot, the underscore and the dash.
pub record IsController (controller : String) : Type 0 where
  pub present : is_blank controller ≡ false
  pub short : count controller ≤ 200
  pub plain : all_char is_kept controller ≡ true

default-IsController : IsController "default"
unfolding is_kept
default-IsController = record { present = refl; short = ground arith; plain = refl }

bounded-IsController : (s : String) → all_char is_kept s ≡ true → IsController (bounded s)
unfolding bounded
bounded-IsController s plain = elim (Bool-cases (is_blank s)) [
  | inl blank ↦ rw blank default-IsController
  | inr present ↦ elim (Bool-cases (ltb controller_max_length (count s))) [
    | inl long ↦
        rw (present, long)
          (record {
            present = present_take 200 s (ground arith) present;
            short = count-take_runes 200 s;
            plain = all_char-take_runes is_kept 200 s plain;
          })
    | inr short ↦
        rw (present, short)
          (record { present = present; short = ltb→le 200 (count s) short; plain = plain })
  ]
]

module _ {A : Type 0} (P : A → Type 0) (less : A → A → Bool) where
  All-insert : (x : A) (xs : List A) → P x → All P xs → All P (insert less x xs)
  unfolding insert
  All-insert x [] p ps = (p, tt)
  All-insert x (y ∷ ys) p (q, qs) = elim (Bool-cases (less y x)) [
    | inl after ↦ rw after (q, All-insert x ys p qs)
    | inr before ↦ rw before (p, (q, qs))
  ]

  All-sort : (xs : List A) → All P xs → All P (sort less xs)
  unfolding sort
  All-sort [] ps = tt
  All-sort (x ∷ xs) (p, ps) = All-insert x (sort less xs) p (All-sort xs ps)

insert_present :
    {A : Type 0} (less : A → A → Bool) (x : A) (xs : List A) → is_empty (insert less x xs) ≡ false
unfolding insert
insert_present less x [] = refl
insert_present less x (y ∷ ys) = elim (Bool-cases (less y x)) [ inl e ↦ rw e | inr e ↦ rw e ]

sort_present :
    {A : Type 0} (less : A → A → Bool) (xs : List A)
    → is_empty xs ≡ false
    → is_empty (sort less xs) ≡ false
unfolding sort
sort_present less [] h = absurd cc
sort_present less (x ∷ xs) h = insert_present less x (sort less xs)

module _ (lower : String → String) (table : Char → Char) (url_path : String → Option String)
    (clean : String → String) where
  sanitized-IsController :
      (value : String) → IsController (sanitize_swagger_controller lower table url_path clean value)
  unfolding sanitize_swagger_controller
  sanitized-IsController value =
      let replaced = replace_runs false (lower (trim_space value)) in
      bounded-IsController (trim_by is_edge replaced) (
        all_char-trim_right_by is_edge is_kept (trim_left_by is_edge replaced) (
          all_char-trim_left_by is_edge is_kept replaced
            (all_char-replace_runs false (lower (trim_space value)))))

  first_part-IsController :
      (parts : List String) → IsController (first_part lower table url_path clean parts)
  unfolding first_part
  first_part-IsController [] = default-IsController
  first_part-IsController (part ∷ parts) = sanitized-IsController part

  untagged-IsController :
      (operation : Operation) (fallback : String)
      → IsController (untagged lower table url_path clean operation fallback)
  unfolding untagged operation_id_controller
  untagged-IsController operation fallback =
      elim (Bool-cases (not (is_blank (trim_space operation.operation_id)))) [
        | inl named ↦
            rw named (first_part-IsController (fields_func is_separator operation.operation_id))
        | inr unnamed ↦ rw unnamed (sanitized-IsController fallback)
      ]

  controller_by-IsController :
      (tags : List String) (operation : Operation) (fallback : String)
      → IsController (controller_by lower table url_path clean tags operation fallback)
  unfolding controller_by
  controller_by-IsController [] operation fallback = untagged-IsController operation fallback
  controller_by-IsController (tag ∷ tags) operation fallback =
      elim (Bool-cases (not (is_blank (trim_space tag)))) [
        | inl tagged ↦ rw tagged (sanitized-IsController tag)
        | inr blank ↦ rw blank (untagged-IsController operation fallback)
      ]

  swagger_controller-IsController :
      (operation : Operation) (fallback : String)
      → IsController (swagger_controller lower table url_path clean operation fallback)
  unfolding swagger_controller
  swagger_controller-IsController operation fallback =
      controller_by-IsController operation.tags operation fallback

  -- An operation as an import may create it: its controller is well-formed, and the validation of
  -- API endpoints accepts it.
  pub record IsParsed (operation : SwaggerOperation) : Type 0 where
    pub controller : IsController operation.controller
    pub endpoint : ApiEndpoint
    pub valid : validate_swagger_operation lower table url_path clean operation ≡ ok endpoint

  abbrev AllParsed : Result (List SwaggerOperation) → Type 0
  AllParsed r = (found : List SwaggerOperation) → r ≡ ok found → All IsParsed found

  module _ (document : Document) where
    AllParsed-collect_item :
        (route : String) (items : List (String × Option Operation))
        (later : Result (List SwaggerOperation))
        → AllParsed later
        → AllParsed (collect_item lower table url_path clean document route items later)
    unfolding collect_item operation_of
    AllParsed-collect_item route [] later p found h = p found h
    AllParsed-collect_item route ((method, none) ∷ rest) later p found h =
        AllParsed-collect_item route rest later p found h
    AllParsed-collect_item route ((method, some operation) ∷ rest) later p found h =
        let made = operation_of lower table url_path clean document route method operation in
        let others = collect_item lower table url_path clean document route rest later in
        let ps = AllParsed-collect_item route rest later p in
        elim (Bool-cases (not (is_api_endpoint_http_method method))) [
          | inl skipped ↦ ps found (rw skipped at h)
          | inr taken ↦
              let (endpoint, valid, h1) =
                >>=-eq-ok (validate_swagger_operation lower table url_path clean made)
                  (λ _. others >>= λ found. ok (made ∷ found)) (rw taken at h) in
              let (xs, e, h2) = >>=-eq-ok others (λ found. ok (made ∷ found)) h1 in
              subst (All IsParsed) (ok-injective h2) (
                record {
                  controller = swagger_controller-IsController operation document.title;
                  endpoint = endpoint;
                  valid = valid;
                },
                ps xs e,
              )
        ]

    AllParsed-collect :
        (paths : List (String × PathItem))
        → AllParsed (collect lower table url_path clean document paths)
    unfolding collect
    AllParsed-collect [] found h = subst (All IsParsed) (ok-injective h) tt
    AllParsed-collect ((route, item) ∷ paths) found h =
        AllParsed-collect_item route (operations item) _ (AllParsed-collect paths) found h

  pub sorted_passed :
      (found : List SwaggerOperation) {result : List SwaggerOperation}
      → sorted_operations lower table url_path clean found ≡ ok result
      → (is_empty found ≡ false) × (sort operation_lt found ≡ result)
  unfolding sorted_operations
  sorted_passed found h =
      let (present, h1) = refusal_passed (is_empty found) _ (ok (sort operation_lt found)) h in
      (present, ok-injective h1)

  -- What is read from a document.
  pub record IsRead (result : List SwaggerOperation) : Type 0 where
    pub present : is_empty result ≡ false
    pub sorted : IsSorted operation_lt result
    pub parsed : All IsParsed result

  -- Where a document is read without an error: it has an operation; the operations are sorted by their
  -- paths and then their methods; and each has a controller of 1 to 200 code points, all of them the
  -- letters a to z, digits, dots, underscores and dashes, and is accepted by the validation of API
  -- endpoints.
  pub parse_swagger_operations-IsRead :
      (document : Document) (result : List SwaggerOperation)
      → parse_swagger_operations lower table url_path clean document ≡ ok result
      → IsRead result
  unfolding parse_swagger_operations
  parse_swagger_operations-IsRead document result h =
      let (supported, h1) = refusal_passed (not (is_supported document)) _ _ h in
      let (found, collected, h2) =
        >>=-eq-ok (collect lower table url_path clean document document.paths)
          (sorted_operations lower table url_path clean) h1 in
      let (present, same) = sorted_passed found h2 in
      record {
        present = ap is_empty (sym same) ∙ sort_present operation_lt found present;
        sorted =
            subst (IsSorted operation_lt) same
              (sort-IsSorted operation_lt operation_lt-IsWeakOrder found);
        parsed = subst (All IsParsed) same (
            All-sort IsParsed operation_lt found
              (AllParsed-collect document document.paths found collected));
      }
