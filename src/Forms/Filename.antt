-- ===== src/Forms/Filename.antt =====
-- internal/forms/parse.go: the name that an attachment is sent under. The repair of broken UTF-8 is an
-- argument.
use sitebin_io.Base.{
  ℕ, ◌-◌, Bool, ◌&&◌, ◌||◌, List, [], ◌∷◌, if◌then◌else◌, leb, ltb, ◌==◌, Str, codes, str_eq, any,
  length, drop,
}
use sitebin_io.Text.{trim_space}

abbrev pub max_filename_bytes : ℕ
max_filename_bytes = 150

abbrev pub blocked_ext : List Str
blocked_ext =
    codes ".exe"
    ∷ codes ".com"
    ∷ codes ".bat"
    ∷ codes ".cmd"
    ∷ codes ".scr"
    ∷ codes ".pif"
    ∷ codes ".msi"
    ∷ codes ".msp"
    ∷ codes ".jar"
    ∷ codes ".js"
    ∷ codes ".jse"
    ∷ codes ".vbs"
    ∷ codes ".vbe"
    ∷ codes ".wsf"
    ∷ codes ".wsh"
    ∷ codes ".ps1"
    ∷ codes ".psm1"
    ∷ codes ".hta"
    ∷ codes ".cpl"
    ∷ codes ".lnk"
    ∷ codes ".reg"
    ∷ codes ".dll"
    ∷ codes ".app"
    ∷ codes ".apk"
    ∷ []

abbrev pub is_slash : ℕ → Bool
is_slash c = c == b'/' || c == b'\\'

-- What follows the last slash or backslash, if there is one.
unfoldable pub last_element : Str → Str
last_element [] = []
last_element (c ∷ s) =
    let rest = last_element s in if is_slash c then rest else if any is_slash s then rest else c ∷ s

-- Bytes without the control characters: those of ASCII, and the two bytes of U+0080 to U+009F.
unfoldable pub drop_control : Str → Str
drop_control [] = []
drop_control (c ∷ []) = if ltb c 32 || c == 127 then [] else c ∷ []
drop_control (c ∷ d ∷ s) =
    let rest = drop_control (d ∷ s) in
    let after = drop_control s in
    if ltb c 32 || c == 127
    then rest
    else if c == 194 && leb 128 d && leb d 159
    then after
    else c ∷ rest

-- From the first byte that starts a character.
unfoldable pub to_rune_start : Str → Str
to_rune_start [] = []
to_rune_start (c ∷ s) = let rest = to_rune_start s in if leb 128 c && ltb c 192 then rest else c ∷ s

abbrev pub or_attachment : Str → Str
or_attachment s =
    if str_eq s [] || str_eq s (codes ".") || str_eq s (codes "..") then codes "attachment" else s

abbrev pub name_tail : Str → Str
name_tail s =
    if ltb max_filename_bytes (length s)
    then to_rune_start (drop (length s - max_filename_bytes) s)
    else s

-- `cleanFilename`.
unfoldable pub clean_filename : (Str → Str) → Str → Str
unfolding last_element drop_control to_rune_start
clean_filename to_valid s =
    or_attachment (name_tail (trim_space (drop_control (to_valid (last_element s)))))
