-- ===== src/Postgres/Numbering.antt =====
-- Statements as pieces: text, and arguments that are numbered by their place.
use db_tui.Common.{
  ◌||◌, ℕ, suc, ◌+◌, ◌≡◌, refl, sym, ap, ◌∙◌, Bool, true, false, List, [], ◌∷◌, ◌++◌, Text, lit,
  join, length, ◌⊎◌, inl, inr, arith,
}
use mathlib.Core.List.{append_assoc, append-nil}
use db_tui.Core.{CoreError}
use db_tui.Grid.Types.{Value, StagedValue, ValueKind, value_text, value_null, value_default}
use db_tui.Postgres.Statements.{
  Argument, value_argument, Statement, Parts, placeholder, with_first, made_with, made_from,
  with_part, mutation_expression,
}

pub data Piece : Type 0 where
  plain : Text → Piece
  bound : Argument → Piece

-- the text, where the arguments are numbered one after another
unfoldable pub rendered : ℕ → List Piece → Text
rendered next [] = []
rendered next (plain text ∷ pieces) = text ++ rendered next pieces
rendered next (bound _ ∷ pieces) = placeholder next ++ rendered (next + 1) pieces

unfoldable pub arguments : List Piece → List Argument
arguments [] = []
arguments (plain _ ∷ pieces) = arguments pieces
arguments (bound argument ∷ pieces) = argument ∷ arguments pieces

-- The first argument is $1.
abbrev pub numbered : List Piece → Statement
numbered pieces = record { query = rendered 1 pieces; args = arguments pieces }

unfoldable pub separated : Text → List (List Piece) → List Piece
separated separator [] = []
separated separator (item ∷ []) = item
separated separator (item ∷ next ∷ items) =
    item ++ (plain separator ∷ separated separator (next ∷ items))

abbrev pub all_arguments : List (List Piece) → List Argument
all_arguments [] = []
all_arguments (item ∷ items) = arguments item ++ all_arguments items

unfoldable pub texts_of : ℕ → List (List Piece) → List Text
unfolding rendered arguments
texts_of next [] = []
texts_of next (item ∷ items) = rendered next item ∷ texts_of (next + length (arguments item)) items

abbrev pub value_piece : StagedValue → Piece
value_piece value = elim value.kind [
  | value_default ↦ plain (lit "default")
  | value_null ↦ bound (value_argument Value.nil_value)
  | value_text ↦ bound (value_argument (Value.string_value value.text))
]

pub rendered-append :
    (next : ℕ) (ps qs : List Piece)
    → rendered next (ps ++ qs) ≡ rendered next ps ++ rendered (next + length (arguments ps)) qs
unfolding rendered arguments
rendered-append next [] qs = ap (λ n. rendered n qs) (omega arith)
rendered-append next (plain text ∷ ps) qs =
    ap (λ rest. text ++ rest) (rendered-append next ps qs)
    ∙ sym (append_assoc text (rendered next ps) (rendered (next + length (arguments ps)) qs))
rendered-append next (bound argument ∷ ps) qs =
    let count = length (arguments ps) in
    let moved : next + 1 + count ≡ next + suc count = omega arith in
    ap (λ rest. placeholder next ++ rest)
      (rendered-append (next + 1) ps qs ∙ ap (λ n. rendered (next + 1) ps ++ rendered n qs) moved)
    ∙ sym
        (append_assoc (placeholder next) (rendered (next + 1) ps) (rendered (next + suc count) qs))

pub arguments-append : (ps qs : List Piece) → arguments (ps ++ qs) ≡ arguments ps ++ arguments qs
unfolding arguments
arguments-append [] qs = refl
arguments-append (plain text ∷ ps) qs = arguments-append ps qs
arguments-append (bound argument ∷ ps) qs = ap (λ rest. argument ∷ rest) (arguments-append ps qs)

pub join-texts_of :
    (separator : Text) (next : ℕ) (items : List (List Piece))
    → join separator (texts_of next items) ≡ rendered next (separated separator items)
unfolding join texts_of separated rendered
join-texts_of separator next [] = refl
join-texts_of separator next (item ∷ []) = refl
join-texts_of separator next (item ∷ item' ∷ items) =
    let later = next + length (arguments item) in
    ap (λ rest. rendered next item ++ (separator ++ rest))
      (join-texts_of separator later (item' ∷ items))
    ∙ sym (rendered-append next item (plain separator ∷ separated separator (item' ∷ items)))

pub arguments-separated :
    (separator : Text) (items : List (List Piece))
    → arguments (separated separator items) ≡ all_arguments items
unfolding separated arguments
arguments-separated separator [] = refl
arguments-separated separator (item ∷ []) = sym (append-nil (arguments item))
arguments-separated separator (item ∷ item' ∷ items) =
    arguments-append item (plain separator ∷ separated separator (item' ∷ items))
    ∙ ap (λ rest. arguments item ++ rest) (arguments-separated separator (item' ∷ items))

abbrev pub parts_of : ℕ → List (List Piece) → Parts
parts_of next items = record { texts = texts_of next items; args = all_arguments items }

-- An error exactly where there is one to find, and otherwise what is expected.
abbrev pub Built : {X : Type 0} → Bool → X → CoreError ⊎ X → Type 0
Built refused expected (inl _) = refused ≡ true
Built refused expected (inr made) = (refused ≡ false) × (made ≡ expected)

pub Built-made_with :
    {X Y : Type 0} (f : X → Y) (refused : Bool) (x : X) (found : CoreError ⊎ X)
    → Built refused x found
    → Built refused (f x) (made_with f found)
Built-made_with f refused x (inl err) h = h
Built-made_with f refused x (inr made) (h, same) = (h, ap f same)

pub Built-made_from :
    {X Y : Type 0} (f : X → CoreError ⊎ Y) (refused refused' : Bool) (x : X) (y : Y)
    (found : CoreError ⊎ X)
    → Built refused x found
    → Built refused' y (f x)
    → Built (refused || refused') y (made_from f found)
Built-made_from f refused refused' x y (inl err) h h' = rw h refl
Built-made_from f refused refused' x y (inr made) (h, same) h' = rw (h, same) h'

expression_of_kind :
    (kind : ValueKind) (text : Text) (next : ℕ)
    → let value : StagedValue = record { kind = kind; text = text } in
      (mutation_expression value next).query ++ [] ≡ rendered next (value_piece value ∷ [])
unfolding mutation_expression rendered
expression_of_kind value_text text next = refl
expression_of_kind value_null text next = refl
expression_of_kind value_default text next = refl

pub expression-rendered :
    (value : StagedValue) (next : ℕ)
    → (mutation_expression value next).query ≡ rendered next (value_piece value ∷ [])
expression-rendered value next =
    sym (append-nil (mutation_expression value next).query)
    ∙ expression_of_kind value.kind value.text next

pub arguments_of_kind :
    (kind : ValueKind) (text : Text) (next : ℕ)
    → let value : StagedValue = record { kind = kind; text = text } in
      (mutation_expression value next).args ≡ arguments (value_piece value ∷ [])
unfolding mutation_expression arguments
arguments_of_kind value_text text next = refl
arguments_of_kind value_null text next = refl
arguments_of_kind value_default text next = refl

-- what comes first is followed by what the rest makes
pub Built-with_part :
    (text : Text) (args : List Argument) (refused : Bool) (next : ℕ) (item : List Piece)
    (items : List (List Piece)) (rest : CoreError ⊎ Parts)
    → text ≡ rendered next item
    → args ≡ arguments item
    → Built refused (parts_of (next + length args) items) rest
    → Built refused (parts_of next (item ∷ items)) (with_first text args rest)
unfolding texts_of
Built-with_part text args refused next item items (inl err) ht ha h = h
Built-with_part text args refused next item items (inr parts) ht ha (h, hs) = (
  h,
  ap (with_part text args) hs
      ∙ ap (λ w. with_part w args (parts_of (next + length args) items)) ht
      ∙ ap (λ a. with_part (rendered next item) a (parts_of (next + length a) items)) ha,
)
