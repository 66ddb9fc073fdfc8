-- ===== src/Transfer/Save/Tests.antt =====
-- internal/transfer/save.go: uploads to a folder that has a file of the name.
use omarchy_vault.Prelude.{
  ◌≤◌, ◌≡◌, ◌≢◌, refl, codes, str_eq, true, none, some, [], ◌∷◌, length, ok, err,
}
use omarchy_vault.Transfer.Names.{
  clean_name, candidate, plain_name, fit, base, after_slash, scrub, trim_left, bytes, scan_ext,
  digits,
}
use omarchy_vault.Transfer.Publish.{publish, publish_from, take_turn}
use omarchy_vault.Transfer.Publish.Disk.{Files, put, disk}
use omarchy_vault.Transfer.Save.{Upload, partial_name, save, too_large}
use omarchy_vault.Transfer.Save.Kept.{Adds, content-save, save-Adds}

-- A folder that has a photo.
abbrev photos : Files
photos = put (codes "a.jpg") (some (1 ∷ [])) (λ x. none)

abbrev photo : Upload
photo = record {
  is_there = true;
  is_plain = true;
  opens = true;
  draw = some (codes "x");
  body = 2 ∷ 3 ∷ [];
  is_complete = true;
  syncs = true;
  closes = true;
}

saved : (save disk (codes "C:/fake/a.jpg") photo 5 photos).1 ≡ ok (codes "a (1).jpg", 2)
unfolding save publish publish_from take_turn candidate clean_name plain_name fit base after_slash
    scrub trim_left bytes scan_ext digits str_eq
saved = refl

save-Adds_example :
    Adds disk
      (partial_name photo)
      (clean_name (codes "C:/fake/a.jpg"))
      photo.body
      photos
      (save disk (codes "C:/fake/a.jpg") photo 5 photos).0
      (codes "a (1).jpg")
    × (2 ≡ length photo.body)
    × (2 ≤ 5)
save-Adds_example =
    save-Adds disk (codes "C:/fake/a.jpg") photo 5 photos (codes "a (1).jpg") 2 saved

held : photos (codes "a.jpg") ≢ none
unfolding str_eq
held = λ c. cc

content-save_example :
    (save disk (codes "C:/fake/a.jpg") photo 5 photos).0 (codes "a.jpg") ≡ photos (codes "a.jpg")
content-save_example = content-save disk (codes "C:/fake/a.jpg") photo 5 photos (codes "a.jpg") held

refused : (save disk (codes "C:/fake/a.jpg") photo 1 photos).1 ≡ err too_large
unfolding save str_eq
refused = refl

apart : codes "a (1).jpg" ≢ partial_name photo
apart = λ c. cc
