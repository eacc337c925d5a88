-- ===== src/Ndjson/Scanner.antt =====
-- `bufio.Scanner` with `ScanLines`, and `bytes.TrimSpace`. The scanner reads what a stream delivers;
-- how the stream is cut does not matter, where it gives its end apart from its last bytes.
use omnistorage.Base.{
  ℕ, Bytes, nat_eq, Bool, true, false, ◌&&◌, ◌||◌, [], ◌∷◌, Option, none, some, Error, message,
  if◌then◌else◌, ◌==◌, length, take, ltb, leb,
}

-- `input` is what is in the buffer and what the stream still gives, `failure` what ends it, and
-- `stopped` says that the end is known.
pub record Scanner : Type 0 where
  pub input : Bytes
  pub failure : Error
  pub stopped : Bool

-- A line, without its newline, and what is behind it.
unfoldable pub split_line : Bytes → Option (Bytes × Bytes)
split_line [] = none
split_line (c ∷ s) =
    let rest = split_line s in
    if c == 10
    then some ([], s)
    else elim rest [ none ↦ none | some (line, t) ↦ some (c ∷ line, t) ]

-- `dropCR`
unfoldable pub drop_cr : Bytes → Bytes
drop_cr [] = []
drop_cr (c ∷ []) = if c == 13 then [] else c ∷ []
drop_cr (c ∷ d ∷ s) = c ∷ drop_cr (d ∷ s)

-- `ErrTooLong`: the buffer is full and has no line. It keeps what is in the buffer.
abbrev pub stop_full : ℕ → Scanner → Scanner
stop_full size sc = record {
  input = take size sc.input;
  failure = message "bufio.Scanner: token too long" [];
  stopped = true;
}

-- `Scan` and `Bytes`, with a buffer of `size` bytes.
unfoldable pub scan : ℕ → Scanner → Option Bytes × Scanner
unfolding split_line drop_cr
scan size sc = elim (split_line sc.input) [
  | some (line, rest) ↦
      if sc.stopped || ltb (length line) size
      then (some (drop_cr line), record sc { input = rest })
      else (none, stop_full size sc)
  | none ↦
      if sc.stopped || ltb (length sc.input) size
      then elim sc.input [
        | [] ↦ (none, record sc { stopped = true })
        | c ∷ s ↦ (some (drop_cr (c ∷ s)), record sc { input = []; stopped = true })
      ]
      else (none, stop_full size sc)
]

-- `unicode.IsSpace` in UTF-8, of one, two and three bytes.
abbrev pub is_space : ℕ → Bool
is_space c = c == 32 || (leb 9 c && leb c 13)

abbrev pub is_space2 : ℕ → ℕ → Bool
is_space2 c d = c == 194 && (d == 133 || d == 160)

abbrev pub is_space3 : ℕ → ℕ → ℕ → Bool
is_space3 c d e =
    (c == 225 && (d == 154 && e == 128))
    || ((c == 226
          && (d == 128 && ((leb 128 e && leb e 138) || (e == 168 || (e == 169 || e == 175)))))
        || ((c == 226 && (d == 129 && e == 159)) || (c == 227 && (d == 128 && e == 128))))

-- `len(bytes.TrimSpace(line)) == 0`
unfoldable pub is_blank : Bytes → Bool
is_blank [] = true
is_blank (c ∷ []) = is_space c
is_blank (c ∷ d ∷ []) = elim (is_space c) [ true ↦ is_blank (d ∷ []) | false ↦ is_space2 c d ]
is_blank (c ∷ d ∷ e ∷ s) = elim (is_space c) [
  | true ↦ is_blank (d ∷ e ∷ s)
  | false ↦ elim (is_space2 c d) [
    | true ↦ is_blank (e ∷ s)
    | false ↦ elim (is_space3 c d e) [ true ↦ is_blank s | false ↦ false ]
  ]
]

-- `strings.TrimSpace`: spaces at the front go, and the longest end that is blank.
unfoldable pub trim_front : Bytes → Bytes
trim_front [] = []
trim_front (c ∷ []) = if is_space c then [] else c ∷ []
trim_front (c ∷ d ∷ []) = elim (is_space c) [
  | true ↦ trim_front (d ∷ [])
  | false ↦ if is_space2 c d then [] else c ∷ d ∷ []
]
trim_front (c ∷ d ∷ e ∷ s) = elim (is_space c) [
  | true ↦ trim_front (d ∷ e ∷ s)
  | false ↦ elim (is_space2 c d) [
    | true ↦ trim_front (e ∷ s)
    | false ↦ elim (is_space3 c d e) [ true ↦ trim_front s | false ↦ c ∷ d ∷ e ∷ s ]
  ]
]

unfoldable pub trim_end : Bytes → Bytes
unfolding is_blank
trim_end [] = []
trim_end (c ∷ s) = let rest = trim_end s in if is_blank (c ∷ s) then [] else c ∷ rest

unfoldable pub trim_space : Bytes → Bytes
unfolding trim_front trim_end
trim_space s = trim_end (trim_front s)
