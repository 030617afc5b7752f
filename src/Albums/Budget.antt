-- ===== src/Albums/Budget.antt =====
-- routers/api/albums.py: the calls of the API that an addition to several albums makes.
use immich_adapter.Prelude.{ℕ, Option, List, map, Exec, pure, ◌>>=◌}
use immich_adapter.Outside.ShortUuid.{ShortUuid}
use immich_adapter.Stacks.{gather}
use immich_adapter.Bulk.{Reason}
use immich_adapter.Albums.{AlbumClient, add_assets_to_one_album, first_some}

-- the additions to the albums, one by one, and the first error that they answer with
abbrev pub added_to_all :
    {W : Type 0} → ShortUuid → AlbumClient W → List ℕ → List ℕ → Exec W (Option Reason)
added_to_all S client albums assets = do
  errors ← gather (map (add_assets_to_one_album S client assets) albums)
  pure (first_some errors)
