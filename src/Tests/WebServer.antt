-- ===== src/Tests/WebServer.antt =====
-- The properties of the web server on concrete files.
use gmrender_resurrect.Prelude.{ℕ, ◌≡◌, refl, arith, ◌⊎◌, true, some, List, [], ◌∷◌}
use gmrender_resurrect.Prelude.Text.{Bytes, codes}
use gmrender_resurrect.Prelude.Int.{pos, negsuc}
use gmrender_resurrect.Prelude.Run.{Returns}
use gmrender_resurrect.WebServer.{
  VirtualFile, WebServerFile, LocalFiles, register_buf, register_file, open_file, seek_cur,
  seek_end,
}
use gmrender_resurrect.WebServer.Reading.{
  Moved, access_all, access_all-Moved, read_all, read_bytes, seek_by,
}
use gmrender_resurrect.WebServer.Serving.{
  register_buf-served, IsPlain, Registered, Refused, register_file-Returns,
}

register_buf-served_example :
    (after : List VirtualFile) × (file last : WebServerFile) × (register_buf
        (some (codes "/a.xml"))
        (some (codes "hello"))
        (some (codes "text/xml"))
        []
      ≡ some (pos 0, after))
    × (open_file (codes "/a.xml") true after ≡ some file)
    × (read_all (2 ∷ 2 ∷ 2 ∷ []) file ≡ some (codes "hello", last))
register_buf-served_example =
    register_buf-served (codes "/a.xml") (codes "hello") (codes "text/xml") [] (2 ∷ 2 ∷ 2 ∷ [])
      (omega arith) (omega arith, (omega arith, (omega arith, tt))) (omega arith)

abbrev hello : WebServerFile
hello = record { pos = 0; contents = codes "hello"; len = 5 }

access_all-Moved_example :
    Returns
      (λ _ after. Moved hello after)
      (access_all
        (read_bytes 3
          ∷ seek_by (negsuc 4) seek_cur
          ∷ seek_by (negsuc 0) seek_end
          ∷ read_bytes 9
          ∷ [])
        hello)
access_all-Moved_example =
    access_all-Moved
      (read_bytes 3 ∷ seek_by (negsuc 4) seek_cur ∷ seek_by (negsuc 0) seek_end ∷ read_bytes 9 ∷ [])
      hello (record { pos-le = omega arith; len_eq = refl; small = omega arith })
      (omega arith, (omega arith, tt))

zeros : ℕ → Bytes
zeros ℕ.zero = []
zeros (ℕ.suc n) = b'0' ∷ zeros n

abbrev zero_files : LocalFiles
zero_files = record {
  pkg_datadir = codes "/usr/share";
  stat = λ name. some 4;
  read_file = λ name n. some (zeros n);
}

icon_name-IsPlain : IsPlain (codes "icon.png")
icon_name-IsPlain = (
  omega arith,
  (
    omega arith,
    (omega arith, (omega arith, (omega arith, (omega arith, (omega arith, (omega arith, tt)))))),
  ),
)

register_file-Returns_example :
    Returns
      (λ rc after.
        Registered zero_files
          (codes "/usr/share/icon.png")
          (codes "/upnp/icon.png")
          (codes "image/png")
          []
          rc
          after
        ⊎ Refused zero_files (codes "/usr/share/icon.png") [] rc after)
      (register_file zero_files (codes "/upnp/icon.png") (codes "image/png") [])
register_file-Returns_example =
    register_file-Returns zero_files (codes "/upnp") (codes "icon.png") (codes "image/png") []
      icon_name-IsPlain
