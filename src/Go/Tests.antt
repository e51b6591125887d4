-- ===== src/Go/Tests.antt =====
-- Runs of the text functions at single inputs.
use cluster_api_provider_kub.Prelude.{codes, ◌≡◌, refl}
use cluster_api_provider_kub.Go.Text.{trim_space, quote, dir}

test_trim : trim_space (codes " \t a b\n") ≡ codes "a b"
unfolding trim_space
test_trim = refl

test_quote : quote (λ s. s) (codes "a\"b\n") ≡ codes "\"a\\\"b\\n\""
unfolding quote
test_quote = refl

test_dir : dir (codes "/etc/../a//b/c") ≡ codes "/a/b"
unfolding dir
test_dir = refl

test_dir_name : dir (codes "x") ≡ codes "."
unfolding dir
test_dir_name = refl
