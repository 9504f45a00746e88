-- ===== src/Config/RouteRules/Overlap.antt =====
-- config.go: when two routes may match one request.
use nats_web_gateway.Base.{
  Bool, List, [], false, if◌then◌else◌, length, not, true, ◌&&◌, ◌==◌, ◌||◌, ◌∷◌,
}
use nats_web_gateway.Base.Text.{Text, contains, text_eq}
use nats_web_gateway.Config.Template.{has_placeholder}
use nats_web_gateway.Routes.{segments}

unfoldable pub methods_overlap : List Text → List Text → Bool
methods_overlap [] right = false
methods_overlap (method ∷ left) right = contains right method || methods_overlap left right

-- `pathSegments`, which is the `segments` of internal/routes/routes.go once more.
abbrev path_segments : Text → List Text
path_segments path = segments path

-- The loop over the segments of two paths of one length.
unfoldable pub segments_overlap : List Text → List Text → Bool
segments_overlap [] rights = true
segments_overlap (left ∷ lefts) [] = true
segments_overlap (left ∷ lefts) (right ∷ rights) =
    if not (has_placeholder left) && not (has_placeholder right) && not (text_eq left right)
    then false
    else segments_overlap lefts rights

unfoldable pub paths_overlap : Text → Text → Bool
paths_overlap left right =
    length (path_segments left) == length (path_segments right)
    && segments_overlap (path_segments left) (path_segments right)
