-- ===== src/Plugin/Tests.antt =====
-- A directory with a text file, a library that is no plugin, and two plugins.
use cpp_tricks.Prelude.{
  ℕ, ◌≡◌, refl, true, false, List, [], ◌∷◌, Option, none, some, length, if◌then◌else◌,
}
use cpp_tricks.Prelude.Int.{pos}
use cpp_tricks.Prelude.Text.{Text, codes, same_text, decimal}
use cpp_tricks.Order.{lex, list_less, nat_less}
use cpp_tricks.Plugin.Version.{Version, to_string}
use cpp_tricks.Plugin.Identity.{Identity, identity}
use cpp_tricks.Plugin.Identity
use cpp_tricks.Plugin.Iterator.{Entry, Linker}
use cpp_tricks.Plugin.Search.{first_path, plugins_of}
use cpp_tricks.Plugin.Loader.{PluginMap, Files, Loader, import}
use cpp_tricks.Plugin.Laws.{Outcome, import_lem}

abbrev version : Version
version = record { major_ = pos 1; minor_ = pos 2; patch_ = pos 3 }

version_text : to_string version ≡ codes "1.2.3"
unfolding to_string decimal
version_text = refl

abbrev save : Identity
save = identity (codes "ui") (codes "save") version

abbrev open_file : Identity
open_file = identity (codes "wizard") (codes "open") version

each_below_the_other : (Identity.less open_file save ≡ true) × (Identity.less save open_file ≡ true)
unfolding Identity.less identity lex
each_below_the_other = (refl, refl)

abbrev file : Text → Entry
file path = record {
  path = path;
  is_regular_file = true;
  is_symlink = false;
  exists = true;
  target = [];
}

-- The handle of a library is its path.
abbrev linker : Linker Text ℕ
linker = record {
  dlopen = λ path. some path;
  plugin_id = λ h.
      if same_text h (codes "/p/save.so")
      then some save
      else if same_text h (codes "/p/open.so")
      then some open_file
      else none;
  id_error = λ h. false;
  plugin_instance = λ h. some (some (length h));
  instance_error = λ h. false;
}

-- A map as a list of its entries, which `find` searches for an equal key.
abbrev Entries : Type 0
Entries = List (Identity × (ℕ × Text))

abbrev find_entry : Entries → Identity → Option (ℕ × Text)
find_entry [] id = none
find_entry ((k, v) ∷ m) id = if Identity.equal k id then some v else find_entry m id

abbrev erase_entry : Identity → Entries → Entries
erase_entry id [] = []
erase_entry id ((k, v) ∷ m) = if Identity.equal k id then m else (k, v) ∷ erase_entry id m

abbrev values_of : Entries → List (ℕ × Text)
values_of [] = []
values_of ((k, v) ∷ m) = v ∷ values_of m

abbrev entries_map : PluginMap Entries (ℕ × Text)
entries_map = record {
  find = λ m id. find_entry m id;
  insert = λ id v m. (id, v) ∷ m;
  erase = λ id m. erase_entry id m;
  values = λ m. values_of m;
  empty = [];
}

abbrev files : Files
files = record {
  entries = λ dir.
      file (codes "/p/readme")
      ∷ file (codes "/p/c.so")
      ∷ file (codes "/p/open.so")
      ∷ file (codes "/p/save.so")
      ∷ [];
  current_path = codes "/p";
  exists = λ path. true;
}

abbrev unused : Loader Entries
unused = record { current_path_ = []; plugins_ = []; open_handles = 0 }

import_lem_example :
    (r : Option ℕ × Loader Entries) × (import entries_map linker files save [] unused ≡ some r)
    × Outcome entries_map linker files save
        (first_path save (plugins_of linker (files.entries (codes "/p"))))
        (record unused { current_path_ = codes "/p" })
        r
unfolding identity
import_lem_example = import_lem entries_map linker files save [] unused refl refl
