-- ===== src/Transfer/Downloads/Tests.antt =====
-- internal/transfer/serve_download.go: a share link with a password, for one download.
use omarchy_vault.Prelude.{
  ◌*◌, ◌<◌, ◌≡◌, refl, inr, GoString, codes, str_eq, Bool, true, none, some, List, [], ◌∷◌, arith,
}
use omarchy_vault.Prelude.Dict
use omarchy_vault.Auth.Limiter.{blocked, wait_for, longest_wait, succeed}
use omarchy_vault.Transfer.Session.{share, kind_eq, Session, check_password}
use omarchy_vault.Transfer.Tables.{Row, scan, used_up}
use omarchy_vault.Transfer.Store.{refused, lookup, judge, reserve}
use omarchy_vault.Transfer.Store
use omarchy_vault.Transfer.Store.Runs
use omarchy_vault.Transfer.Store.Runs.{Op, create}
use omarchy_vault.Transfer.Publish.Disk.{disk}
use omarchy_vault.Transfer.Receive.{lookup_kind}
use omarchy_vault.Transfer.Downloads.{
  Phones, FileInfo, Fetch, sent, granted, was_counted, count, send, share_unlocked_for, Unlock,
  share_unlock, usable_after, share_after, share_file, prune_grants,
}
use omarchy_vault.Transfer.Downloads.Passwords.{
  Event, unlock, store, clean, step, run, Opened, share_file-Opened,
}
use omarchy_vault.Transfer.Downloads.Resumed.{share_after-count}

abbrev digest : GoString → GoString
digest t = t

abbrev fits : GoString → GoString → Bool
fits password h = str_eq password h

abbrev token : GoString
token = codes "0123456789012345678901234567890123456789012"

abbrev row : Row
row = record {
  id = codes "link";
  token_hash = token;
  kind = share;
  folder = codes "Photos";
  created_by = codes "ann";
  client = [];
  created_at = 5;
  expires_at = 600005;
  revoked_at = none;
  max_files = 1;
  max_bytes = 2 * 1000000000;
  files = 0;
  bytes = 0;
  path = codes "Photos/a.jpg";
  password_hash = codes "pw";
}

abbrev link : Session
link = scan row

abbrev phones : Phones
phones = record {
  db = record { sessions = row ∷ []; activity = []; next_seq = 1 };
  limiter = [];
  counted = [];
  unlocked = [];
}

abbrev right : Unlock
right = record {
  token = token;
  client_ip = codes "10.0.0.3";
  password = codes "pw";
  looked_at = 6000000;
  blocked_at = 6000000;
  failed_at = 6000000;
  granted_at = 6000000;
  lookup_up = true;
  draw = some (codes "cookie");
}

abbrev photo : FileInfo
photo = record { file_name = codes "a.jpg"; size = 7 }

abbrev get_photo : Fetch
get_photo = record {
  token = token;
  client_ip = codes "10.0.0.3";
  is_get = true;
  cookie = some (codes "cookie");
  looked_at = 7000000;
  counted_at = 7000000;
  unlocked_at = 7000000;
  recorded_at = 7000000;
  lookup_up = true;
  reserve_up = true;
  tx = record { begin_ok = true; update_ok = true; insert_ok = true; commit_ok = true };
  opens = true;
  found = some photo;
}

-- the server before the link is there
abbrev started : Phones
started = record phones { db = record { sessions = []; activity = []; next_seq = 1 } }

-- `Create` of the link
abbrev shared : Op
shared =
    create
      (record {
        kind = share;
        folder = codes "Photos";
        created_by = codes "ann";
        client = [];
        ttl = 600 * 1000000000;
        max_files = 1;
        max_bytes = 2 * 1000000000;
        path = codes "Photos/a.jpg";
        password_hash = codes "pw";
      })
      5000000 (some (codes "link")) (some token) true

abbrev events : List (Event disk)
events = store shared ∷ unlock right ∷ clean 6500000 ∷ []

served :
    (share_file digest get_photo (codes "f:") (run disk fits digest events started)).1 ≡ sent link
unfolding share_file run step Runs.step Store.create share_unlock lookup_kind lookup judge kind_eq
    scan str_eq blocked wait_for longest_wait Dict.lookup Dict.insert Dict.delete check_password
    succeed was_counted share_unlocked_for send count reserve prune_grants
served = refl

locked : link.has_password ≡ true
unfolding scan
locked = refl

share_file-Opened_example : Opened disk fits digest link.id events started
share_file-Opened_example =
    share_file-Opened disk fits digest events started get_photo (codes "f:") link refl served locked

counted : (count link get_photo (codes "f:") photo phones).1 ≡ sent link
unfolding count reserve scan str_eq
counted = refl

soon : 7000000 < link.expires_at
unfolding scan
soon = omega arith

share_after-count_example :
    (usable_after
        (refused link used_up)
        get_photo.client_ip
        (codes "f:")
        7000000
        (count link get_photo (codes "f:") photo phones).0
      ≡ granted link true)
    × ((share_after
          (λ t. t)
          ([], refused link used_up)
          get_photo
          (codes "f:")
          (count link get_photo (codes "f:") photo phones).0).0.db
        ≡ (count link get_photo (codes "f:") photo phones).0.db)
share_after-count_example =
    share_after-count link link get_photo get_photo (codes "f:") photo phones []
      (refused link used_up) counted soon refl refl (inr refl)
