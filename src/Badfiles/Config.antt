-- ===== src/Badfiles/Config.antt =====
-- `parse_checkrr_yaml` and `resolve_host_port`. The lines of the file come without their newlines;
-- what `docker port` prints, in lines, is a parameter, and `none` is a failed call.
use mathlib.Core.List.{reverse}
use media_stack.Common.{
  Bool, List, Option, Text, [], before, codes, false, get_default, if◌then◌else◌, leb, length,
  lookup, lstrip, none, not, put, some, starts_with, strip, text_eq, ℕ, ◌&&◌, ◌-◌, ◌==◌, ◌||◌, ◌∷◌,
}

-- `arrs[current]`: the mappings, and the other keys.
pub record Block : Type 0 where
  pub mappings : List (Text × Text)
  pub fields : List (Text × Text)

-- The locals of the loop.
pub record Parse : Type 0 where
  pub arrs : List (Text × Block)
  pub current : Option Text
  pub in_arr : Bool

abbrev pub empty_block : Block
empty_block = record { mappings = []; fields = [] }

unfoldable pub lstrip_char : ℕ → Text → Text
lstrip_char c [] = []
lstrip_char c (a ∷ t) = let rest = lstrip_char c t in if a == c then rest else a ∷ t

-- `t.strip(c)`, for one character.
unfoldable pub strip_char : ℕ → Text → Text
unfolding lstrip_char
strip_char c t = reverse (lstrip_char c (reverse (lstrip_char c t)))

unfoldable pub has_char : ℕ → Text → Bool
has_char c [] = false
has_char c (a ∷ t) = a == c || has_char c t

-- What follows the first `c`; `before` is what comes before it.
unfoldable pub after_char : ℕ → Text → Text
after_char c [] = []
after_char c (a ∷ t) = let rest = after_char c t in if a == c then t else rest

unfoldable pub ends_with_colon : Text → Bool
ends_with_colon [] = false
ends_with_colon (c ∷ []) = c == 58
ends_with_colon (c ∷ d ∷ t) = ends_with_colon (d ∷ t)

-- `t[:-1]`
unfoldable pub drop_last : Text → Text
drop_last [] = []
drop_last (c ∷ []) = []
drop_last (c ∷ d ∷ t) = c ∷ drop_last (d ∷ t)

unfoldable pub set_entry : (indent : ℕ) (key value : Text) → Block → Block
unfolding put strip_char text_eq
set_entry indent key value b =
    if leb 6 indent
    then record { mappings = put (strip_char 34 key) value b.mappings; fields = b.fields }
    else if not (text_eq key (codes "mappings"))
    then record { mappings = b.mappings; fields = put key value b.fields }
    else b

-- A line inside a block.
unfoldable pub entry_line : (indent : ℕ) (stripped : Text) → Option Text → Parse → Parse
unfolding set_entry has_char after_char before strip strip_char put lookup
entry_line indent stripped none s = s
entry_line indent stripped (some name) s = if not (has_char 58 stripped) then s else record {
  arrs =
      put name
        (set_entry indent (strip (before 58 stripped))
          (strip_char 39 (strip_char 34 (strip (after_char 58 stripped))))
          (get_default empty_block (lookup name s.arrs)))
        s.arrs;
  current = some name;
  in_arr = s.in_arr;
}

-- A line that is neither blank nor a comment.
unfoldable pub plain_line : (indent : ℕ) (stripped : Text) → Parse → Parse
unfolding entry_line ends_with_colon drop_last put text_eq
plain_line indent stripped s =
    if indent == 0
    then record { arrs = s.arrs; current = none; in_arr = text_eq stripped (codes "arr:") }
    else if not s.in_arr
    then s
    else if indent == 2 && ends_with_colon stripped
    then record {
      arrs = put (drop_last stripped) empty_block s.arrs;
      current = some (drop_last stripped);
      in_arr = s.in_arr;
    }
    else entry_line indent stripped s.current s

unfoldable pub parse_line : Text → Parse → Parse
unfolding plain_line strip lstrip starts_with
parse_line line s =
    if length (strip line) == 0 || starts_with (lstrip line) (codes "#")
    then s
    else plain_line (length line - length (lstrip line)) (strip line) s

unfoldable pub parse_lines : List Text → Parse → Parse
unfolding parse_line
parse_lines [] s = s
parse_lines (l ∷ lines) s = parse_lines lines (parse_line l s)

unfoldable pub parse_checkrr_yaml : List Text → List (Text × Block)
unfolding parse_lines
parse_checkrr_yaml lines =
    (parse_lines lines (record { arrs = []; current = none; in_arr = false })).arrs

-- `line.rsplit(":", 1)[1].strip()`
unfoldable pub after_last_colon : Text → Text
unfolding has_char
after_last_colon [] = []
after_last_colon (c ∷ t) =
    let later = after_last_colon t in if c == 58 && not (has_char 58 t) then t else later

-- The port of the first line with a binding that is not an IPv6 one.
unfoldable pub first_binding : List Text → Text → Text
unfolding after_last_colon has_char strip starts_with
first_binding [] container_port = container_port
first_binding (line ∷ lines) container_port =
    let later = first_binding lines container_port in
    if has_char 58 line && not (starts_with (strip line) (codes "["))
    then strip (after_last_colon line)
    else later

unfoldable pub bound_port : Option (List Text) → Text → Text
unfolding first_binding
bound_port none container_port = container_port
bound_port (some lines) container_port = first_binding lines container_port

unfoldable pub resolve_host_port : (docker_port : Text → Text → Option (List Text)) → Block → Text
unfolding bound_port lookup text_eq
resolve_host_port docker_port b =
    let container = get_default [] (lookup (codes "address") b.fields) in
    let container_port = get_default [] (lookup (codes "port") b.fields) in
    if length container == 0
    then container_port
    else bound_port (docker_port container container_port) container_port
