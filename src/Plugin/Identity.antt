-- ===== src/Plugin/Identity.antt =====
-- `plugin::Identity`.
use cpp_tricks.Prelude.{Bool, ◌&&◌, ◌||◌, [], ◌++◌}
use cpp_tricks.Prelude.Text.{Text, codes, same_text}
use cpp_tricks.Order.{lt, list_less, nat_less}
use cpp_tricks.Plugin.Version.{Version}
use cpp_tricks.Plugin.Version

pub record Identity : Type 0 where
  pub name : Text
  pub name_space : Text
  pub version : Version
  pub path : Text

-- The constructor with a name space, a name and a version.
unfoldable pub identity : Text → Text → Version → Identity
identity name_space name version = record {
  name = name;
  name_space = name_space;
  version = version;
  path = [];
}

-- `operator==`
unfoldable pub equal : Identity → Identity → Bool
equal i rhs =
    same_text i.name rhs.name
    && (same_text i.name_space rhs.name_space && Version.equal i.version rhs.version)

-- `operator<`
unfoldable pub less : Identity → Identity → Bool
less i rhs =
    lt i.name rhs.name || (lt i.name_space rhs.name_space || Version.less i.version rhs.version)

unfoldable pub to_string : Identity → Text
to_string i = i.name_space ++ (codes ":" ++ (i.name ++ (codes " " ++ Version.to_string i.version)))
