-- ===== src/Skills/Instructions.antt =====
-- What a client is told of the packages: SessionMode and Instructions of
-- pkg/adapters/skillpackages/packages.go, and Features.
use Prim.Native.String.{String, ◌++◌}
use openlinker_agent_node.Base.{Bool, List, [], ◌∷◌, if◌then◌else◌, str_eq, ◌&&◌, not}
use openlinker_agent_node.Skills.{Package}
use openlinker_agent_node.Skills.Paths.{join}

-- Features
unfoldable pub features : String → List String
features provider =
    if not (str_eq provider "codex") && not (str_eq provider "claude")
    then []
    else "skill_packages.v1" ∷ ("skill_packages." ++ (provider ++ ".v1")) ∷ []

-- SessionMode
unfoldable pub session_mode : String → String
session_mode digest = if str_eq digest "" then "" else ":skill_packages:" ++ digest

-- strings.Join
abbrev pub join_with : String → List String → String
join_with separator [] = ""
join_with separator (s ∷ []) = s
join_with separator (s ∷ t ∷ rest) = s ++ (separator ++ join_with separator (t ∷ rest))

abbrev package_lines : Bool → List Package → List String
package_lines resumed [] = []
package_lines resumed (p ∷ rest) =
    let others = package_lines resumed rest in
    let title =
      "Skill package: " ++ (p.name ++ ("\nRead instructions: " ++ join p.directory "SKILL.md")) in
    if resumed
    then "" ∷ title ∷ "Read SKILL.md again if its instructions are no longer in context." ∷ others
    else "" ∷ title ∷ ("Available files: " ++ join_with ", " p.files) ∷ p.instructions ∷ others

-- the lines before the packages
abbrev preamble : List String
preamble =
    "" ∷ "The Agent owner associated these version-pinned skill packages with this Agent."
    ∷ "Use their instructions when relevant to the task. They do not grant new tool, credential or network permissions."
    ∷ "Resolve supporting files relative to each package directory. Do not modify package files or reveal their private contents."
    ∷ []

abbrev append_lines : List String → List String → List String
append_lines [] later = later
append_lines (l ∷ rest) later = l ∷ append_lines rest later

-- Instructions
unfoldable pub package_instructions : List Package → Bool → String
package_instructions [] resumed = ""
package_instructions (p ∷ rest) resumed =
    join_with "\n" (append_lines preamble (package_lines resumed (p ∷ rest)))
