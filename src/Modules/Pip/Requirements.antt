-- ===== src/Modules/Pip/Requirements.antt =====
-- modules/pip/convert_to_pip_requirements.go: the Python program that parses requirements.
use gosible.Base.{List, [], ◌∷◌, ◌++◌, map}
use gosible.GoText.{Str, codes, join}

pub record RequirementData : Type 0 where
  pub name : Str
  pub version : Str

abbrev newline : Str
newline = 10 ∷ []

-- the lines of pythonCodeTemplate up to the data
code_before : List Str
code_before =
    codes "from __future__ import print_function"
    ∷ codes "import json"
    ∷ codes "import sys"
    ∷ codes "import re"
    ∷ codes ""
    ∷ codes "try:"
    ∷ codes "    from pkg_resources import Requirement"
    ∷ codes "except ImportError:"
    ∷ codes "    print(traceback.format_exc(), file=sys.stderr)"
    ∷ codes "    exit(42)"
    ∷ codes ""
    ∷ codes "# From ansible for max compat."
    ∷ codes "class Package:"
    ∷ codes "    \"\"\"Python distribution package metadata wrapper."
    ∷ codes ""
    ∷ codes "    A wrapper class for Requirement, which provides"
    ∷ codes "    API to parse package name, version specifier,"
    ∷ codes "    test whether a package is already satisfied."
    ∷ codes "    \"\"\""
    ∷ codes ""
    ∷ codes "    _CANONICALIZE_RE = re.compile(r\"[-_.]+\")"
    ∷ codes ""
    ∷ codes "    def __init__(self, name_string, version_string=None):"
    ∷ codes "        self._plain_package = False"
    ∷ codes "        self.package_name = name_string"
    ∷ codes "        self._requirement = None"
    ∷ codes ""
    ∷ codes "        if version_string:"
    ∷ codes "            version_string = version_string.lstrip()"
    ∷ codes "            separator = \"==\" if version_string[0].isdigit() else \" \""
    ∷ codes "            name_string = separator.join((name_string, version_string))"
    ∷ codes "        try:"
    ∷ codes "            self._requirement = Requirement.parse(name_string)"
    ∷ codes
        "            # old pkg_resource will replace 'setuptools' with 'distribute' when it's already installed"
    ∷ codes "            if ("
    ∷ codes "                self._requirement.project_name == \"distribute\""
    ∷ codes "                and \"setuptools\" in name_string"
    ∷ codes "            ):"
    ∷ codes "                self.package_name = \"setuptools\""
    ∷ codes "                self._requirement.project_name = \"setuptools\""
    ∷ codes "            else:"
    ∷ codes "                self.package_name = Package.canonicalize_name("
    ∷ codes "                    self._requirement.project_name"
    ∷ codes "                )"
    ∷ codes "            self._plain_package = True"
    ∷ codes "        except ValueError as e:"
    ∷ codes "            pass"
    ∷ codes ""
    ∷ codes "    @property"
    ∷ codes "    def has_version_specifier(self):"
    ∷ codes "        if self._plain_package:"
    ∷ codes "            return bool(self._requirement.specs)"
    ∷ codes "        return False"
    ∷ codes ""
    ∷ codes "    @staticmethod"
    ∷ codes "    def canonicalize_name(name):"
    ∷ codes "        # This is taken from PEP 503."
    ∷ codes "        return Package._CANONICALIZE_RE.sub(\"-\", name).lower()"
    ∷ codes ""
    ∷ codes "    def __str__(self):"
    ∷ codes "        if self._plain_package:"
    ∷ codes "            return str(self._requirement)"
    ∷ codes "        return self.package_name"
    ∷ codes ""
    ∷ codes "data = ["
    ∷ []

-- and those after the data
code_after : List Str
code_after =
    codes "] # Here data mus be provided from go."
    ∷ codes "packages = []"
    ∷ codes "for name, version in data:"
    ∷ codes "    p = Package(name, version)"
    ∷ codes
        "    packages.append({\"HasVersionSpecifier\": p.has_version_specifier, \"Str\": str(p)})"
    ∷ codes ""
    ∷ codes "print(json.dumps(packages))"
    ∷ codes ""
    ∷ []

abbrev quoted_pair : RequirementData → Str
quoted_pair r = codes "('" ++ r.name ++ codes "', '" ++ r.version ++ codes "')"

unfoldable pub get_python_code : List RequirementData → Str
unfolding join code_before code_after
get_python_code requirements =
    join newline code_before
    ++ join (codes ", ") (map quoted_pair requirements)
    ++ join newline code_after
