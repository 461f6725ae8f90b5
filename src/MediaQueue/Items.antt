-- ===== src/MediaQueue/Items.antt =====
-- `Validate`. The parts of `url.Parse` that it asks for are a parameter.
use Prim.Native.String.{len}
use zombiebox_gateway_core.Base.{
  ℕ, String, Bool, false, not, ◌&&◌, ◌||◌, Option, none, some, List, any, all, length, ltb, leb,
  ◌==◌, if◌then◌else◌, str_eq,
}
use zombiebox_gateway_core.Base.Text.{codes}

pub record Item : Type 0 where
  pub url : String
  pub title : String

pub record Url : Type 0 where
  pub scheme : String
  pub hostname : String
  pub has_user : Bool
  pub fragment : String

-- `unicode.IsControl`
is_control : ℕ → Bool
is_control c = ltb c 32 || (leb 127 c && leb c 159)

module _ (parse : String → Option Url) where
  url_ok : Option Url → Bool
  url_ok none = false
  url_ok (some u) =
      not (str_eq u.hostname "")
      && not u.has_user
      && str_eq u.fragment ""
      && (str_eq u.scheme "https" || str_eq u.scheme "http")

  unfoldable pub item_ok : Item → Bool
  unfolding url_ok is_control
  item_ok item =
      url_ok (parse item.url)
      && leb (len item.url) 4096
      && leb (length (codes item.title)) 120
      && not (any is_control (codes item.title))

  unfoldable pub validate : List Item → Bool
  unfolding item_ok
  validate items = if length items == 0 || ltb 16 (length items) then false else all item_ok items
