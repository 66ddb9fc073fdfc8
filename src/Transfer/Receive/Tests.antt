-- ===== src/Transfer/Receive/Tests.antt =====
-- internal/transfer/server.go: an upload of two photos to a link for one.
use omarchy_vault.Prelude.{
  ◌+◌, ◌^◌, ◌≤◌, ◌≡◌, ◌≢◌, refl, GoString, codes, str_eq, true, none, some, List, [], ◌∷◌, length,
  err, arith,
}
use omarchy_vault.Transfer.Session.{upload, Session}
use omarchy_vault.Transfer.Tables.{Row, Db, scan}
use omarchy_vault.Transfer.Store.{reserve, remaining, release, record_transfer}
use omarchy_vault.Transfer.Store.Uses.{left, copies}
use omarchy_vault.Transfer.Names.{
  clean_name, candidate, plain_name, fit, base, after_slash, scrub, trim_left, bytes, scan_ext,
  digits,
}
use omarchy_vault.Transfer.Publish.{publish, publish_from, take_turn}
use omarchy_vault.Transfer.Publish.Disk.{Files, put, disk}
use omarchy_vault.Transfer.Save.{save, too_large}
use omarchy_vault.Transfer.Receive.{
  FilePart, Part, file, skipped, parts, Drive, not_saved, Vault, save_one, receive_parts, receive,
}
use omarchy_vault.Transfer.Receive.Counted.{Uses, receive_parts-Uses, length-receive_parts}
use omarchy_vault.Transfer.Receive.Refused.{content-receive, save_one_refused}

abbrev digest : GoString → GoString
digest t = t

abbrev token : GoString
token = codes "0123456789012345678901234567890123456789012"

abbrev row : Row
row = record {
  id = codes "link";
  token_hash = token;
  kind = upload;
  folder = codes "Uploads";
  created_by = codes "ann";
  client = [];
  created_at = 5;
  expires_at = 600005;
  revoked_at = none;
  max_files = 1;
  max_bytes = 2 ^ 30;
  files = 0;
  bytes = 0;
  path = [];
  password_hash = [];
}

abbrev db : Db
db = record { sessions = row ∷ []; activity = []; next_seq = 1 }

abbrev link : Session
link = scan row

-- A folder that has a photo.
abbrev photos : Files
photos = put (codes "a.jpg") (some (1 ∷ [])) (λ x. none)

abbrev vault : Vault disk
vault = (db, photos)

abbrev photo : FilePart
photo = record {
  file_name = codes "a.jpg";
  upload = record {
    is_there = true;
    is_plain = true;
    opens = true;
    draw = some (codes "x");
    body = 2 ∷ 3 ∷ [];
    is_complete = true;
    syncs = true;
    closes = true;
  };
  reserve_up = true;
  remaining_up = true;
  release_up = true;
  free = some (2 ^ 31);
  now = 6000000;
  tx = record { begin_ok = true; update_ok = true; insert_ok = true; commit_ok = true };
}

abbrev photo_parts : List Part
photo_parts = file photo ∷ skipped ∷ file photo ∷ []

-- The first is saved, the link is full for the second.
one_saved : length (receive_parts disk link photo_parts vault).1.0 ≡ 1
unfolding receive_parts save_one reserve remaining release record_transfer scan save publish
    publish_from take_turn candidate clean_name plain_name fit base after_slash scrub trim_left
    bytes scan_ext digits str_eq
one_saved = refl

receive_parts-Uses_example :
    Uses digest link.id
      (length (receive_parts disk link photo_parts vault).1.0)
      vault.0
      (receive_parts disk link photo_parts vault).0.0
receive_parts-Uses_example = receive_parts-Uses digest disk link photo_parts vault

one_row : copies link.id vault.0 ≤ 1
unfolding copies scan str_eq
one_row = omega arith

length-receive_parts_example :
    length (receive_parts disk link photo_parts vault).1.0
      + left link.id (receive_parts disk link photo_parts vault).0.0
    ≤ left link.id vault.0
length-receive_parts_example = length-receive_parts disk link photo_parts vault one_row

held : photos (codes "a.jpg") ≢ none
unfolding str_eq
held = λ c. cc

abbrev drive : Drive
drive = record { is_found = true; opens = true }

content-receive_example :
    (receive disk digest
        (codes "10.0.0.3")
        token
        6000000
        true
        drive
        (parts photo_parts)
        []
        vault).1.0.1
      (codes "a.jpg")
    ≡ photos (codes "a.jpg")
content-receive_example =
    content-receive disk digest (codes "10.0.0.3") token 6000000 true drive (parts photo_parts) []
      db photos (codes "a.jpg") held

-- The drive has no room: the use is given back.
abbrev tight : FilePart
tight = record photo { free = some (2 ^ 30 + 1) }

too_long : (save_one disk link tight vault).1 ≡ err (not_saved too_large)
unfolding save_one reserve remaining release scan save str_eq
too_long = refl

save_one_refused_example : (save_one disk link tight vault).0.0 ≡ db
save_one_refused_example =
    save_one_refused disk link tight db photos (not_saved too_large) one_row refl too_long
