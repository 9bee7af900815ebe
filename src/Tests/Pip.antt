-- ===== src/Tests/Pip.antt =====
-- Runs of modules/pip.
use gosible.Base.{List, [], ◌∷◌, ◌≡◌, refl, true}
use gosible.GoText.{Str, codes, join, split, trim_space, has_prefix}
use gosible.Modules.Pip.{recover_package_name, get_extra_args, pip_defaults}
use gosible.Modules.Pip.Names.{join-recover_package_name}

abbrev given_names : List Str
given_names =
    codes "django>1.11.1" ∷ codes "<1.11.2" ∷ codes "ipaddress,simpleproject[a,b]<2.0.0,>1.1.0" ∷ []

recovered :
    recover_package_name given_names
    ≡ codes "django>1.11.1,<1.11.2"
      ∷ codes "ipaddress"
      ∷ codes "simpleproject[a,b]<2.0.0,>1.1.0"
      ∷ []
unfolding recover_package_name split trim_space has_prefix join
recovered = refl

join-recover_package_name_example :
    join (codes ",") (recover_package_name given_names) ≡ join (codes ",") given_names
join-recover_package_name_example = join-recover_package_name given_names

flag_added :
    get_extra_args (record pip_defaults { editable = true; extra_args = codes "-v" })
    ≡ codes "-v -e"
unfolding get_extra_args
flag_added = refl
