-- ===== src/Console/Screen.antt =====
-- The screen that src/console/console.c draws: the terminal and its pixels.
use nsos.Prelude.{ℕ, ◌+◌, ◌<◌, ◌≡◌, Bool, not, ◌&&◌, ◌||◌, List, [], ◌∷◌, some, ◌==◌, if◌then◌else◌}
use nsos.Console.{Console, newline}
use nsos.Console.Terminal.{Terminal, Displays, type_char}
use nsos.Console.Pixels.{dot_in, white, glyph}

-- A terminal, the character whose glyph was last drawn in each cell, and whether the cursor is
-- shown. A line feed is drawn where the cursor was, though the text has no character for it.
pub record Screen : Type 0 where
  pub text : Terminal
  pub drawn : ℕ → ℕ → ℕ
  pub lit : Bool

-- A character is drawn at the cursor, unless `kept`; if the rows have moved up, all cells are
-- drawn again from the text `t'`, and the cursor is on from then.
abbrev pub see_as : (scrolled kept : Bool) → (ch : ℕ) → (t' : Terminal) → Screen → Screen
see_as scrolled kept ch t' v =
    let typed : ℕ → ℕ → ℕ = λ r c. if v.text.row == r && v.text.col == c then ch else v.drawn r c in
    record {
      text = t';
      drawn = if scrolled then t'.cell else if kept then v.drawn else typed;
      lit = scrolled || v.lit;
    }

module _ (rows cols : ℕ) where
  -- The character moves the rows up.
  abbrev pub scrolls : ℕ → Terminal → Bool
  scrolls ch t = (if ch == newline then not t.full else t.col + 1 == cols) && (t.row + 1 == rows)

  -- A line feed behind a line that is full is not drawn.
  abbrev pub see_char : ℕ → Screen → Screen
  see_char ch v =
      see_as (scrolls ch v.text) (ch == newline && v.text.full) ch (type_char rows cols ch v.text) v

  abbrev pub see_string : List ℕ → Screen → Screen
  see_string [] v = v
  see_string (ch ∷ text) v = see_string text (see_char ch v)

-- A white block at the cursor, if it is shown, and glyphs elsewhere.
abbrev pub colour : (font : ℕ → ℕ → ℕ) → Screen → (r c i j : ℕ) → ℕ
colour font v r c i j =
    if v.lit && (v.text.row == r && v.text.col == c) then white else glyph font (v.drawn r c) i j

module _ (rows cols : ℕ) (font : ℕ → ℕ → ℕ) where
  -- The pixels of every cell are those of the screen.
  pub record Lights (s : Console) (v : Screen) : Type 0 where
    pub switch : s.cursoron ≡ v.lit
    pub dots :
        (r c i j : ℕ)
        → r < rows
        → c < cols
        → i < 8
        → j < 16
        → dot_in s r c i j ≡ some (colour font v r c i j)

  -- Buffer, cursor and pixels show the screen.
  abbrev pub Seen : Console → Screen → Type 0
  Seen s v = Displays rows cols s v.text × Lights s v
