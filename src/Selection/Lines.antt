-- ===== src/Selection/Lines.antt =====
-- What parse_output_selection_line() of src/nettest_omni.c stores, cell by cell.
use mathlib.Core.Path.{subst}
use netperf_copilot.Common.{
  ℕ, suc, ◌+◌, ◌-◌, ◌≤◌, ◌<◌, ◌≡◌, ◌≢◌, inl, inr, refl, sym, ap, ◌∙◌, arith, Bool, true, false,
  ◌&&◌, List, [], ◌∷◌, ltb, ◌==◌, if◌then◌else◌, if_cases, ltb→lt, ltb→le, lt→ltb, lt→leb, ==→eq,
  ==→ne, length, get_or, set, get_or-set_self, get_or-set_ne, length-set, Bytes, Bool-cases,
}
use netperf_copilot.Selection.{
  netperf_output_unknown, netperf_output_max, netperf_max_blocks, Selected, store, select,
  match_string_to_output_mnenomic, tokens, line_loop, parse_output_selection_line,
}

-- A cell of output_list, and the sizes of the array.
abbrev pub cell : Selected → ℕ → ℕ → ℕ
cell s row column = get_or (get_or s.output_list row []) column 0

abbrev pub HasShape : Selected → Type 0
HasShape s =
    (length s.output_list ≡ netperf_max_blocks)
    × ((row : ℕ)
        → row < netperf_max_blocks
        → length (get_or s.output_list row []) ≡ netperf_output_max)

-- The selectors that a line asks for: with debugging on, without the unknown ones.
abbrev pub kept : Bool → List Bytes → List ℕ
kept debug [] = []
kept debug (token ∷ rest) =
    if match_string_to_output_mnenomic token == netperf_output_unknown && debug
    then kept debug rest
    else match_string_to_output_mnenomic token ∷ kept debug rest

module _ (line j name : ℕ) (s : Selected) (shape : HasShape s) (row_ok : line < netperf_max_blocks)
    (column_ok : j < netperf_output_max) where
  select_rows :
      (select line j name s).output_list
      ≡ set s.output_list line (set (get_or s.output_list line []) j name)
  unfolding select store
  select_rows = rw (lt→ltb j netperf_output_max column_ok) refl

  abbrev own_row : List ℕ
  own_row = get_or s.output_list line []

  select_own : get_or (select line j name s).output_list line [] ≡ set own_row j name
  select_own =
      ap (λ l. get_or l line []) select_rows
      ∙ get_or-set_self s.output_list line (set own_row j name) [] (omega (arith, shape.0))

  select_other :
      (row : ℕ)
      → row ≢ line
      → get_or (select line j name s).output_list row [] ≡ get_or s.output_list row []
  select_other row ne =
      ap (λ l. get_or l row []) select_rows
      ∙ get_or-set_ne s.output_list line row (set own_row j name) [] (λ e. ne (sym e))

  HasShape-select : HasShape (select line j name s)
  HasShape-select = (
    ap length select_rows ∙ length-set s.output_list line (set own_row j name) ∙ shape.0,
    λ row h. elim (Bool-cases (row == line)) [
      | inl same ↦
          subst (λ r. length (get_or (select line j name s).output_list r []) ≡ netperf_output_max)
            (sym (==→eq row line same))
            (ap length select_own ∙ length-set own_row j name ∙ shape.1 line row_ok)
      | inr other ↦ ap length (select_other row (==→ne row line other)) ∙ shape.1 row h
    ],
  )

  cell-select_self : cell (select line j name s) line j ≡ name
  cell-select_self =
      ap (λ l. get_or l j 0) select_own
      ∙ get_or-set_self own_row j name 0 (omega (arith, shape.1 line row_ok))

  cell-select_row :
      (row column : ℕ) → row ≢ line → cell (select line j name s) row column ≡ cell s row column
  cell-select_row row column ne = ap (λ l. get_or l column 0) (select_other row ne)

  cell-select_column :
      (column : ℕ) → column ≢ j → cell (select line j name s) line column ≡ cell s line column
  cell-select_column column ne =
      ap (λ l. get_or l column 0) select_own
      ∙ get_or-set_ne own_row j column name 0 (λ e. ne (sym e))

get_or_shift :
    (x : ℕ) (xs : List ℕ) (c j d : ℕ)
    → j < c
    → get_or (x ∷ xs) (c - j) d ≡ get_or xs (c - (j + 1)) d
get_or_shift x xs c j d h =
    subst (λ n. get_or (x ∷ xs) n d ≡ get_or xs (c - (j + 1)) d) (next c j h) refl
  where
    next : (c j : ℕ) → j < c → suc (c - (j + 1)) ≡ c - j
    next c j h = omega arith

-- The loop keeps the other rows, the columns before it and those behind what it stores.
record Stores (debug : Bool) (line j : ℕ) (names : List ℕ) (s s' : Selected) : Type 0 where
  shape : HasShape s'
  rows : (row column : ℕ) → row ≢ line → cell s' row column ≡ cell s row column
  before : (column : ℕ) → column < j → cell s' line column ≡ cell s line column
  stored :
      (column : ℕ)
      → j ≤ column
      → column < netperf_output_max
      → cell s' line column ≡ get_or names (column - j) (cell s line column)

module _ (debug : Bool) (line : ℕ) (row_ok : line < netperf_max_blocks) where
  Stores-more :
      (j name : ℕ) (names : List ℕ) (s s' : Selected)
      → HasShape s
      → j < netperf_output_max
      → Stores debug line (j + 1) names (select line j name s) s'
      → Stores debug line j (name ∷ names) s s'
  Stores-more j name names s s' shape column_ok later = record {
    shape = later.shape;
    rows = λ row column ne.
        later.rows row column ne
        ∙ cell-select_row line j name s shape row_ok column_ok row column ne;
    before = λ column h.
        later.before column (omega arith)
        ∙ cell-select_column line j name s shape row_ok column_ok column (omega arith);
    stored = λ column h k. elim (Bool-cases (column == j)) [
      | inl same ↦
          subst (λ c. cell s' line c ≡ get_or (name ∷ names) (c - j) (cell s line c))
            (sym (==→eq column j same))
            (later.before j (omega arith)
              ∙ cell-select_self line j name s shape row_ok column_ok
              ∙ sym (ap (λ n. get_or (name ∷ names) n (cell s line j)) (same_place j)))
      | inr other ↦
          later.stored column (omega (arith, ==→ne column j other)) k
          ∙ ap (get_or names (column - (j + 1))) (
              cell-select_column line j name s shape row_ok column_ok column (==→ne column j other))
          ∙ sym (
              get_or_shift name names column j (cell s line column)
                (omega (arith, ==→ne column j other)))
    ];
  }
    where
      same_place : (j : ℕ) → j - j ≡ 0
      same_place j = omega arith

  Stores-none :
      (j : ℕ) (names : List ℕ) (s : Selected)
      → HasShape s
      → netperf_output_max ≤ j
      → Stores debug line j names s s
  Stores-none j names s shape full = record {
    shape = shape;
    rows = λ row column ne. refl;
    before = λ column h. refl;
    stored = λ column h k. absurd (omega arith);
  }

  Stores-if :
      (b : Bool) (j : ℕ) (names more : List ℕ) (s s' s'' : Selected)
      → Stores debug line j names s s'
      → Stores debug line j more s s''
      → Stores debug line j (if b then names else more) s (if b then s' else s'')
  Stores-if true j names more s s' s'' first second = first
  Stores-if false j names more s s' s'' first second = second

  line_loop-Stores :
      (j : ℕ) (ts : List Bytes) (s : Selected)
      → HasShape s
      → Stores debug line j (kept debug ts) s (line_loop debug line j ts s)
  unfolding line_loop
  line_loop-Stores j [] s shape = record {
    shape = shape;
    rows = λ row column ne. refl;
    before = λ column h. refl;
    stored = λ column h k. refl;
  }
  line_loop-Stores j (token ∷ rest) s shape =
      if_cases (Stores debug line j (kept debug (token ∷ rest)) s) (ltb j netperf_output_max) _ _
        (λ room.
          let column_ok = ltb→lt j netperf_output_max room in
          Stores-if (name == netperf_output_unknown && debug) j (kept debug rest)
            (name ∷ kept debug rest) s (line_loop debug line j rest s)
            (line_loop debug line (j + 1) rest (select line j name s))
            (line_loop-Stores j rest s shape)
            (Stores-more j name (kept debug rest) s _ shape column_ok (
              line_loop-Stores (j + 1) rest (select line j name s)
                (HasShape-select line j name s shape row_ok column_ok))))
        (λ full. Stores-none j _ s shape (ltb→le j netperf_output_max full))
    where
      name : ℕ
      name = match_string_to_output_mnenomic token

  -- Where a line selects at most as many outputs as a block has room for or more, its block holds
  -- them in order from the first cell on, as many as there is room for: a cell holds the selector of
  -- its place on the line, or what it held before if there are not so many. No other block changes.
  pub parse_output_selection_line_cells :
      (list : Bytes) (s : Selected)
      → HasShape s
      → ((column : ℕ)
          → column < netperf_output_max
          → cell (parse_output_selection_line debug line list s) line column
            ≡ get_or (kept debug (tokens list)) column (cell s line column))
        × ((row column : ℕ)
            → row ≢ line
            → cell (parse_output_selection_line debug line list s) row column ≡ cell s row column)
  unfolding parse_output_selection_line
  parse_output_selection_line_cells list s shape = rw (lt→leb netperf_max_blocks line row_ok) (
    (λ column h.
        line_stores.stored column (omega arith) h
        ∙ ap (λ n. get_or (kept debug (tokens list)) n (cell s line column)) (less_zero column)),
    line_stores.rows,
  )
    where
      less_zero : (n : ℕ) → n - 0 ≡ n
      less_zero n = omega arith

      line_stores :
          Stores debug line 0 (kept debug (tokens list)) s (line_loop debug line 0 (tokens list) s)
      line_stores = line_loop-Stores 0 (tokens list) s shape
