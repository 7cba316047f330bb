-- ===== src/Compress/Codec.antt =====
-- `Parse` and `Extension` of src/internal/compress/compress.go.
use db_backup.Base.{[], ◌∷◌, Bytes, codes, mem, if◌then◌else◌}
use db_backup.Text.{to_lower}

-- `Type`; `plain` is the source's `None`.
pub data Codec : Type 0 where
  bzip2 gzip xzip zstd plain : Codec

unfoldable pub parse_codec : Bytes → Codec
unfolding to_lower mem
parse_codec s =
    if mem (to_lower s) (codes "bz" ∷ codes "bzip" ∷ codes "bzip2" ∷ [])
    then bzip2
    else if mem (to_lower s) (codes "gz" ∷ codes "gzip" ∷ [])
    then gzip
    else if mem (to_lower s) (codes "xz" ∷ codes "xzip" ∷ [])
    then xzip
    else if mem (to_lower s) (codes "zst" ∷ codes "zstd" ∷ [])
    then zstd
    else plain

unfoldable pub extension : Codec → Bytes
extension bzip2 = codes ".bz2"
extension gzip = codes ".gz"
extension xzip = codes ".xz"
extension zstd = codes ".zst"
extension plain = []
