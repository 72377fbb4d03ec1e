-- ===== src/Collect/Bugs.antt =====
-- `GccBugs` of boundary/collect.py: repairs of the texts that GCC prints for types.
pub mod Ends
use plugsched.Common.{
  ℕ, zero, suc, Bool, false, ◌&&◌, ◌||◌, Option, none, some, [], ◌∷◌, ◌++◌, if◌then◌else◌, ◌==◌,
  nat_eq, leb, length,
}
use plugsched.Common.Text.{Text, codes, text_eq, starts_with, drop_text, occurs, replace, is_space}
use plugsched.Common.Errors.{Result, ok, err, attribute_error, ◌>>=◌}
use plugsched.Collect.Gcc.{
  GccLocation, TypeName, unnamed, identifier, type_decl, GccType, pointer, array, enumeral,
  struct_type, other_type, Decl,
}

-- `[0-9]*` and what follows it
abbrev pub digits : Text → Text × Text
digits [] = ([], [])
digits (c ∷ t) =
    let rest = digits t in if leb b'0' c && leb c b'9' then (c ∷ rest.0, rest.1) else ([], c ∷ t)

-- `\[([0-9]*)\] \*` at the start of a text: the digits and what follows
unfoldable pub array_at : Text → Option (Text × Text)
array_at [] = none
array_at (c ∷ t) =
    let size = digits t in
    if c == b'[' && starts_with (codes "] *") size.1
    then some (size.0, drop_text (codes "] *") size.1)
    else none

abbrev pub keep_char : ℕ → Option (Text × Text × Text) → Option (Text × Text × Text)
keep_char c none = none
keep_char c (some (before, size, rest)) = some (c ∷ before, size, rest)

abbrev pub at_front : Option (Text × Text) → Option (Text × Text × Text)
at_front none = none
at_front (some (size, rest)) = some ([], size, rest)

-- The last such place of the first line, since `(.*)` goes as far as it can: the text before it, the
-- digits, and the text behind it.
unfoldable pub last_array : Text → Option (Text × Text × Text)
last_array [] = none
last_array (c ∷ t) =
    let later = keep_char c (last_array t) in
    let here = at_front (array_at (c ∷ t)) in
    if c == b'\n' then here else elim later [ none ↦ here | some found ↦ some found ]

-- `\s*`, and `[^,\);]*` with what follows it
abbrev pub skip_spaces : Text → Text
skip_spaces [] = []
skip_spaces (c ∷ t) = let rest = skip_spaces t in if is_space c then rest else c ∷ t

abbrev pub declarator : Text → Text × Text
declarator [] = ([], [])
declarator (c ∷ t) =
    let rest = declarator t in
    if c == b',' || c == b')' || c == b';' then ([], c ∷ t) else (c ∷ rest.0, rest.1)

-- a text up to its first newline, and what follows
abbrev pub first_line : Text → Text × Text
first_line [] = ([], [])
first_line (c ∷ t) =
    let rest = first_line t in if c == b'\n' then (c ∷ [], t) else (c ∷ rest.0, rest.1)

-- one substitution, or the step to the next line; `next` goes on with what follows
abbrev pub next_line : (Text → Text) → Text → Text × Text → Text
next_line next str (line, []) = str
next_line next str (line, c ∷ rest) = line ++ next (c ∷ rest)

abbrev pub array_round : (Text → Text) → Text → Option (Text × Text × Text) → Text
array_round next str (some (before, size, rest)) =
    let name = declarator (skip_spaces rest) in
    before ++ (codes " (*" ++ (name.0 ++ (codes ")[" ++ (size ++ (codes "]" ++ next name.1)))))
array_round next str none = next_line next str (first_line str)

-- Every round takes at least one character, so as many rounds as there are characters are enough.
unfoldable pub array_pointers : ℕ → Text → Text
array_pointers zero str = str
array_pointers (suc rounds) str = array_round (array_pointers rounds) str (last_array str)

unfoldable pub array_pointer : Text → Text
array_pointer str = array_pointers (length str) str

-- the type under the pointers and arrays
unfoldable pub base_type : GccType → GccType
base_type (pointer t) = base_type t
base_type (array t) = base_type t
base_type (enumeral name loc) = enumeral name loc
base_type (struct_type name loc) = struct_type name loc
base_type (other_type name) = other_type name

abbrev pub type_name : GccType → TypeName
type_name (enumeral name loc) = name
type_name (struct_type name loc) = name
type_name (other_type name) = name
type_name (pointer t) = unnamed
type_name (array t) = unnamed

-- the branches of `typedef`
abbrev pub drop_struct : TypeName → Text → Text
drop_struct (type_decl name builtin) str = replace (codes "struct " ++ name) name str
drop_struct unnamed str = str
drop_struct (identifier name) str = str

unfoldable pub typedef : GccType → Text → Text
typedef t str = drop_struct (type_name (base_type t)) str

-- `str[:i] + 'enum ' + str[i:]` for `i = str.find(name)`, where -1 stands before the last character
unfoldable pub insert_found : Text → Text → Text → Text
insert_found new name [] = if name == [] then new else []
insert_found new name (c ∷ t) =
    let rest = c ∷ insert_found new name t in
    if starts_with name (c ∷ t) then new ++ c ∷ t else rest

unfoldable pub insert_before_last : Text → Text → Text
insert_before_last new [] = new
insert_before_last new (c ∷ []) = new ++ c ∷ []
insert_before_last new (c ∷ d ∷ t) = c ∷ insert_before_last new (d ∷ t)

abbrev pub insert_enum : Text → Text → Text
insert_enum name str =
    if occurs name str
    then insert_found (codes "enum ") name str
    else insert_before_last (codes "enum ") str

abbrev pub name_enum : TypeName → Text → Result Text
name_enum unnamed str = err attribute_error
name_enum (identifier name) str = ok (insert_enum name str)
name_enum (type_decl name builtin) str = ok (insert_enum name str)

unfoldable pub enum_type_name : GccType → Text → Result Text
enum_type_name (enumeral name loc) str = name_enum name str
enum_type_name (pointer t) str = ok str
enum_type_name (array t) str = ok str
enum_type_name (struct_type name loc) str = ok str
enum_type_name (other_type name) str = ok str

unfoldable pub array_size : Text → Text
array_size str = replace (codes "[<unknown>]") (codes "[]") str

abbrev pub is_va_list_tag : TypeName → Bool
is_va_list_tag (type_decl name builtin) = builtin && name == codes "__va_list_tag"
is_va_list_tag unnamed = false
is_va_list_tag (identifier name) = false

unfoldable pub is_val_list : GccType → Bool
is_val_list (pointer (struct_type name loc)) = is_va_list_tag name
is_val_list _ = false

unfoldable pub va_list : GccType → Text → Text
va_list t str = if is_val_list t then replace (codes "struct  *") (codes "va_list") str else str

-- the repairs in their order
unfoldable pub fix : GccType → Text → Result Text
fix t str = do
  named ← enum_type_name t (array_pointer str)
  ok (va_list t (typedef t (array_size named)))

-- `signature['params'] += ', ...'`
unfoldable pub variadic_function : Text → Text → Text
variadic_function str_decl params =
    if occurs (codes "...") str_decl then params ++ codes ", ..." else params

-- where a definition starts that defines its type too
abbrev pub start_of : GccType → GccLocation → GccLocation
start_of (enumeral unnamed loc) location = loc
start_of (struct_type unnamed loc) location = loc
start_of (enumeral (identifier name) loc) location = location
start_of (enumeral (type_decl name builtin) loc) location = location
start_of (struct_type (identifier name) loc) location = location
start_of (struct_type (type_decl name builtin) loc) location = location
start_of (pointer t) location = location
start_of (array t) location = location
start_of (other_type name) location = location

unfoldable pub var_decl_start_loc : Decl → GccLocation
var_decl_start_loc decl = start_of (base_type decl.typ) decl.location
