-- ===== src/Static/Tests.antt =====
-- A directory that links to a file outside of it.
use libpapago.Prelude.{◌≡◌, refl, true, some, [], if◌then◌else◌}
use libpapago.Prelude.Text.{CString, codes, str_eq, starts_with}
use libpapago.Kv.{find_kv}
use libpapago.Method.{get}
use libpapago.Request.{new_request, req_param}
use libpapago.Response.{
  fresh, set_file_headers, res_header, drop_body, sendfile_opened, sendfile_mime, res_send,
  strdup_body, FileProbe,
}
use libpapago.Response.Valid.{fresh-IsValid}
use libpapago.Static.{
  regular, FileSystem, refuse, locate, is_inside, send_resolved, serve_located, relative_path,
  serve_static,
}
use libpapago.Static.Inside.{IsServed, serve_static-IsServed}

abbrev page : FileProbe
page = record { fd = some 7; is_regular = true; made_blocking = true; size = 120 }

abbrev disk : FileSystem
disk = record {
  realpath = λ path.
      if str_eq path (codes "./www")
      then some (codes "/srv/www")
      else if str_eq path (codes "./www/a.txt")
      then some (codes "/srv/www/a.txt")
      else some (codes "/srv/www2/b.txt");
  stat = λ path. regular;
  probe = λ path. page;
}

is_streamed :
    (serve_static disk
      (some (codes "./www"))
      (new_request get (codes "/a.txt"))
      fresh
      []).0.is_stream_file
    ≡ true
unfolding serve_static relative_path req_param find_kv serve_located locate is_inside send_resolved
    sendfile_mime sendfile_opened set_file_headers res_header drop_body starts_with
is_streamed = refl

-- A name that only starts like the directory's is outside of it.
is_refused :
    (serve_static disk (some (codes "./www")) (new_request get (codes "/b.txt")) fresh []).0.status
    ≡ 403
unfolding serve_static relative_path req_param find_kv serve_located locate is_inside refuse
    res_send strdup_body starts_with
is_refused = refl

serve_static-IsServed_example :
    (dir : CString) × (root : CString) × (some (codes "./www") ≡ some dir)
    × (disk.realpath dir ≡ some root)
    × IsServed disk root
        (serve_static disk (some (codes "./www")) (new_request get (codes "/a.txt")) fresh []).0
serve_static-IsServed_example =
    serve_static-IsServed disk fresh fresh-IsValid refl (some (codes "./www"))
      (new_request get (codes "/a.txt")) [] is_streamed
