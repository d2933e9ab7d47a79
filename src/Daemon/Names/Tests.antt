-- ===== src/Daemon/Names/Tests.antt =====
-- Names of concrete ids.
use bgx.Base.{◌≡◌, ◌≢◌, refl, [], ◌++◌, some, codes, arith}
use bgx.Daemon.Retention.{namespace}
use bgx.Daemon.Names.{encode_name, escape_byte, query_unescape, namespace_dir}
use bgx.Daemon.Names.Escape.{
  query_unescape-encode_name, namespace_dir-separates, namespace_dir_shared,
}

escaped : encode_name (codes "a b/c%") ≡ codes "a+b%2Fc%25"
unfolding encode_name escape_byte
escaped = refl

query_unescape-encode_name_example :
    query_unescape (encode_name (codes "a b/c%")) ≡ some (codes "a b/c%")
query_unescape-encode_name_example = query_unescape-encode_name (codes "a b/c%") (ground arith)

job : namespace (codes "job/1") ≡ codes "job"
unfolding namespace
job = refl

-- Lists of different bytes differ.
not_global : namespace (codes "job/1") ≢ codes "_global"
unfolding namespace
not_global e = cc

namespace_dir-separates_example : namespace (codes "job/1") ≡ namespace (codes "job/2")
unfolding namespace namespace_dir
namespace_dir-separates_example =
    namespace_dir-separates (codes "job/1") (codes "job/2") (ground arith) (ground arith) not_global
      not_global refl

slashless : namespace (codes "build") ≡ []
unfolding namespace
slashless = refl

namespace_dir_shared_example :
    (namespace_dir (codes "_global/" ++ codes "x") ≡ namespace_dir (codes "build"))
    × (namespace_dir (codes "../" ++ codes "x") ≡ codes "..")
namespace_dir_shared_example = namespace_dir_shared (codes "build") (codes "x") slashless
