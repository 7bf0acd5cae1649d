-- ===== src/WebServer.antt =====
-- src/webserver.c: the files that the web server of libupnp serves from memory. The local files are
-- a parameter. A run faults where C reads outside of a buffer or is handed NULL.
pub mod Reading
pub mod Serving
use gmrender_resurrect.Prelude.{
  ℕ, ◌+◌, ◌-◌, ◌%◌, ◌^◌, Bool, true, false, not, ◌&&◌, ◌||◌, Option, none, some, List, [], ◌∷◌,
  ◌++◌, ltb, leb, ◌==◌, if◌then◌else◌, length, take, drop,
}
use gmrender_resurrect.Prelude.Text.{Bytes, str_eq}
use gmrender_resurrect.Prelude.Int.{ℤ, as_int, pos, negsuc, ◌+ℤ◌, ltb_ℤ, pos_part}
use gmrender_resurrect.Prelude.Run.{Run, ◌>>=◌, ◌>>◌, pure, deref, assert}

-- `struct virtual_file`; the list of them begins with the latest.
pub record VirtualFile : Type 0 where
  pub virtual_fname : Bytes
  pub contents : Bytes
  pub content_type : Bytes
  pub len : ℕ

-- `WebServerFile`, with the offset and the contents of an open file.
pub record WebServerFile : Type 0 where
  pub pos : ℕ
  pub contents : Bytes
  pub len : ℕ

-- What `webserver_get_info` tells of a file.
pub record FileInfo : Type 0 where
  pub file_length : ℕ
  pub last_modified : ℕ
  pub is_directory : Bool
  pub is_readable : Bool
  pub info_content_type : Bytes

-- The local files: `stat` gives the size, and `read_file` is `fopen` and `fread` of so many bytes.
pub record LocalFiles : Type 0 where
  pub pkg_datadir : Bytes
  pub stat : Bytes → Option ℕ
  pub read_file : Bytes → ℕ → Option Bytes

abbrev pub Files : Type 0 → Type 0
Files A = Run (List VirtualFile) A

-- The new entry becomes the first.
abbrev provide : VirtualFile → Files ℤ
provide entry files = some (pos 0, entry ∷ files)

-- `webserver_register_buf`
unfoldable pub register_buf : Option Bytes → Option Bytes → Option Bytes → Files ℤ
register_buf path contents content_type = do
  p ← deref path
  c ← deref contents
  t ← deref content_type
  provide (record { virtual_fname = p; contents = c; content_type = t; len = length c })

-- `strrchr(path, '/')`
unfoldable pub last_slash : Bytes → Option Bytes
last_slash [] = none
last_slash (c ∷ s) = elim (last_slash s) [
  | some rest ↦ some rest
  | none ↦ if c == b'/' then some (c ∷ s) else none
]

-- The name in PKG_DATADIR, in a buffer of 512 bytes.
unfoldable pub local_fname : LocalFiles → Bytes → Bytes
local_fname local base = take 511 (local.pkg_datadir ++ base)

-- The end of `webserver_register_file`, with what `fread` gave.
abbrev pub read_in : Bytes → Bytes → ℕ → Option Bytes → Files ℤ
read_in path content_type size none files = some (negsuc 0, files)
read_in path content_type size (some cbuf) files =
    provide
      (record { virtual_fname = path; contents = cbuf; content_type = content_type; len = size })
      files

-- The part behind `stat`: an empty file is not read.
abbrev pub load_file : LocalFiles → Bytes → Bytes → Bytes → Option ℕ → Files ℤ
load_file local path content_type name none files = some (negsuc 0, files)
load_file local path content_type name (some size) files =
    if size == 0
    then provide
        (record { virtual_fname = path; contents = []; content_type = content_type; len = 0 }) files
    else read_in path content_type size (local.read_file name size) files

-- `webserver_register_file`: -1 where the file is not there or cannot be read.
unfoldable pub register_file : LocalFiles → Bytes → Bytes → Files ℤ
unfolding last_slash local_fname
register_file local path content_type = do
  base ← deref (last_slash path)
  load_file local path content_type (local_fname local base) (local.stat (local_fname local base))

-- The search of `webserver_get_info` and `webserver_open`.
unfoldable pub find_file : Bytes → List VirtualFile → Option VirtualFile
find_file filename [] = none
find_file filename (vf ∷ rest) =
    let later = find_file filename rest in
    if str_eq filename vf.virtual_fname then some vf else later

-- `webserver_get_info`: the return code and the information.
unfoldable pub get_info : Bytes → List VirtualFile → FileInfo → ℤ × FileInfo
unfolding find_file
get_info filename files info = elim (find_file filename files) [
  | none ↦ (negsuc 0, info)
  | some virtfile ↦ (
    pos 0,
    record {
      file_length = virtfile.len;
      last_modified = 0;
      is_directory = false;
      is_readable = true;
      info_content_type = virtfile.content_type;
    },
  )
]

-- `webserver_open`; the mode is UPNP_READ or not.
unfoldable pub open_file : Bytes → Bool → List VirtualFile → Option WebServerFile
unfolding find_file
open_file filename is_read files = if not is_read then none else elim (find_file filename files) [
  | none ↦ none
  | some vf ↦ some (record { pos = 0; contents = vf.contents; len = vf.len })
]

-- `minimum` on ints
unfoldable pub minimum : ℤ → ℤ → ℤ
minimum a b = if ltb_ℤ a b then a else b

-- `file->len - file->pos` in 64 bits without sign
abbrev pub remaining : WebServerFile → ℕ
remaining file = (file.len + 2 ^ 64 - file.pos) % 2 ^ 64

-- `memcpy` of `len` bytes from the offset on. A negative length becomes a huge size.
unfoldable pub copied : WebServerFile → ℤ → Option Bytes
copied file (pos n) =
    if leb (file.pos + n) (length file.contents)
    then some (take n (drop file.pos file.contents))
    else none
copied file (negsuc n) = none

-- The second half of `webserver_read`, for the length that is decided on.
unfoldable pub read_length : ℤ → Run WebServerFile (ℤ × Bytes)
unfolding copied
read_length len file = elim (copied file len) [
  | none ↦ none
  | some buf ↦ some ((len, buf), record file { pos = file.pos + pos_part len })
]

-- `webserver_read`: the return code, and what is in the buffer.
unfoldable pub read : ℕ → Run WebServerFile (ℤ × Bytes)
unfolding read_length minimum as_int
read buflen file = read_length (minimum (as_int (pos buflen)) (as_int (pos (remaining file)))) file

-- `webserver_write`
unfoldable pub write : Run WebServerFile ℤ
write file = some (negsuc 0, file)

-- The third argument of `webserver_seek`.
pub data Origin : Type 0 where
  seek_set seek_cur seek_end other : Origin

-- The new position, on offsets without bound: where a sum would leave C's `off_t`, it is outside of
-- the file here.
unfoldable pub new_position : ℤ → Origin → WebServerFile → ℤ
unfolding ◌+ℤ◌
new_position offset seek_set file = offset
new_position offset seek_cur file = pos file.pos +ℤ offset
new_position offset seek_end file = pos file.len +ℤ offset
new_position offset other file = negsuc 0

-- The test of the new position, and the end of `webserver_seek`.
unfoldable pub move_to : ℤ → Run WebServerFile ℤ
move_to (negsuc _) file = some (negsuc 0, file)
move_to (pos n) file =
    if ltb file.len n then some (negsuc 0, file) else some (pos 0, record file { pos = n })

-- `webserver_seek`
unfoldable pub seek : ℤ → Origin → Run WebServerFile ℤ
unfolding new_position move_to
seek offset origin file = move_to (new_position offset origin file) file

-- `webserver_register_callbacks`: the answers of libupnp to the six registrations, true for success;
-- the first that fails ends them.
unfoldable pub register_callbacks : Bool → Bool → Bool → Bool → Bool → Bool → Bool
register_callbacks get_info_rc open_rc read_rc write_rc seek_rc close_rc =
    get_info_rc && open_rc && read_rc && write_rc && seek_rc && close_rc
