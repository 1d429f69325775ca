-- ===== src/Uri/Pieces.antt =====
-- What the parsers of include/pipepp/core/uri.hpp set, beside the text of their input.
use pipepp_core.Prelude.{ℕ, List, take, drop}
use pipepp_core.Text.{Occurs}
use pipepp_core.Text.Search.{Occurs-refl, Occurs-nil, Occurs-take, Occurs-drop, Occurs-trans}
use pipepp_core.Config.{UriParserTag}
use pipepp_core.Uri.{StringView, UriView, parse_by}
use pipepp_core.Uri.Fields.{PartLaws, AllFields}
use pipepp_core.Uri.Fields.Parsers.{parse_by-AllFields}

module _ (w : List ℕ) where
  abbrev pub Piece : StringView → Type 0
  Piece v = Occurs v.text w

  -- Every field of a parsed URI is a piece of the text.
  abbrev pub HasPieces : UriView → Type 0
  HasPieces u = AllFields Piece u

  Piece-laws : PartLaws Piece
  Piece-laws = record {
    nothing = Occurs-nil w;
    behind = λ v n h p. Occurs-trans (drop n v.text) v.text w (Occurs-drop n v.text) p;
    front = λ v n h p. Occurs-trans (take n v.text) v.text w (Occurs-take n v.text) p;
  }

-- Whatever the text, each field that either parser sets is a piece of it: the parsers make nothing
-- up, also from a malformed URI.
pub parse_by-HasPieces :
    (tag : UriParserTag) (uri : StringView) → HasPieces uri.text (parse_by tag uri)
parse_by-HasPieces tag uri =
    parse_by-AllFields (Piece uri.text) (Piece-laws uri.text) tag uri (Occurs-refl uri.text)
