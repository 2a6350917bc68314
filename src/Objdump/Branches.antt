-- ===== src/Objdump/Branches.antt =====
-- The branch instructions of the architectures in objdump.py.
use ee_kernel.Base.{List, [], ◌∷◌, ◌++◌, map, Text, lit}

-- MIPS_BRANCH_LIKELY_INSTRUCTIONS
abbrev pub mips_branch_likely_instructions : List Text
mips_branch_likely_instructions =
    lit "beql"
    ∷ lit "bnel"
    ∷ lit "beqzl"
    ∷ lit "bnezl"
    ∷ lit "bgezl"
    ∷ lit "bgtzl"
    ∷ lit "blezl"
    ∷ lit "bltzl"
    ∷ lit "bc1tl"
    ∷ lit "bc1fl"
    ∷ []

-- MIPS_BRANCH_INSTRUCTIONS
abbrev pub mips_branch_instructions : List Text
mips_branch_instructions =
    lit "b"
    ∷ lit "j"
    ∷ lit "beq"
    ∷ lit "bne"
    ∷ lit "beqz"
    ∷ lit "bnez"
    ∷ lit "bgez"
    ∷ lit "bgtz"
    ∷ lit "blez"
    ∷ lit "bltz"
    ∷ lit "bc1t"
    ∷ lit "bc1f"
    ∷ mips_branch_likely_instructions

-- PPC_BRANCH_INSTRUCTIONS
abbrev pub ppc_branch_instructions : List Text
ppc_branch_instructions =
    lit "b"
    ∷ lit "beq"
    ∷ lit "beq+"
    ∷ lit "beq-"
    ∷ lit "bne"
    ∷ lit "bne+"
    ∷ lit "bne-"
    ∷ lit "blt"
    ∷ lit "blt+"
    ∷ lit "blt-"
    ∷ lit "ble"
    ∷ lit "ble+"
    ∷ lit "ble-"
    ∷ lit "bdnz"
    ∷ lit "bdnz+"
    ∷ lit "bdnz-"
    ∷ lit "bge"
    ∷ lit "bge+"
    ∷ lit "bge-"
    ∷ lit "bgt"
    ∷ lit "bgt+"
    ∷ lit "bgt-"
    ∷ []

-- ARM32_PREFIXES
abbrev pub arm32_prefixes : List Text
arm32_prefixes = lit "b" ∷ lit "bl" ∷ []

-- ARM32_CONDS
abbrev pub arm32_conds : List Text
arm32_conds =
    lit ""
    ∷ lit "eq"
    ∷ lit "ne"
    ∷ lit "cs"
    ∷ lit "cc"
    ∷ lit "mi"
    ∷ lit "pl"
    ∷ lit "vs"
    ∷ lit "vc"
    ∷ lit "hi"
    ∷ lit "ls"
    ∷ lit "ge"
    ∷ lit "lt"
    ∷ lit "gt"
    ∷ lit "le"
    ∷ lit "al"
    ∷ []

-- ARM32_SUFFIXES
abbrev pub arm32_suffixes : List Text
arm32_suffixes = lit "" ∷ lit ".n" ∷ lit ".w" ∷ []

-- [a + b for a in heads for b in tails]
unfoldable pub pairs : List Text → List Text → List Text
pairs [] tails = []
pairs (a ∷ heads) tails = map (λ (b : Text). a ++ b) tails ++ pairs heads tails

-- ARM32_BRANCH_INSTRUCTIONS
unfoldable pub arm32_branch_instructions : List Text
unfolding pairs
arm32_branch_instructions = pairs (pairs arm32_prefixes arm32_conds) arm32_suffixes

-- X86_BRANCH_INSTRUCTIONS, each as often as the source lists it
abbrev pub x86_branch_instructions : List Text
x86_branch_instructions =
    lit "jmp"
    ∷ lit "ljmp"
    ∷ lit "ja"
    ∷ lit "jae"
    ∷ lit "jb"
    ∷ lit "jbe"
    ∷ lit "jc"
    ∷ lit "jcxz"
    ∷ lit "jecxz"
    ∷ lit "jrcxz"
    ∷ lit "je"
    ∷ lit "jg"
    ∷ lit "jge"
    ∷ lit "jl"
    ∷ lit "jle"
    ∷ lit "jna"
    ∷ lit "jnae"
    ∷ lit "jnb"
    ∷ lit "jnbe"
    ∷ lit "jnc"
    ∷ lit "jne"
    ∷ lit "jng"
    ∷ lit "jnge"
    ∷ lit "jnl"
    ∷ lit "jnle"
    ∷ lit "jno"
    ∷ lit "jnp"
    ∷ lit "jns"
    ∷ lit "jnz"
    ∷ lit "jo"
    ∷ lit "jp"
    ∷ lit "jpe"
    ∷ lit "jpo"
    ∷ lit "js"
    ∷ lit "jz"
    ∷ lit "ja"
    ∷ lit "jae"
    ∷ lit "jb"
    ∷ lit "jbe"
    ∷ lit "jc"
    ∷ lit "je"
    ∷ lit "jz"
    ∷ lit "jg"
    ∷ lit "jge"
    ∷ lit "jl"
    ∷ lit "jle"
    ∷ lit "jna"
    ∷ lit "jnae"
    ∷ lit "jnb"
    ∷ lit "jnbe"
    ∷ lit "jnc"
    ∷ lit "jne"
    ∷ lit "jng"
    ∷ lit "jnge"
    ∷ lit "jnl"
    ∷ lit "jnle"
    ∷ lit "jno"
    ∷ lit "jnp"
    ∷ lit "jns"
    ∷ lit "jnz"
    ∷ lit "jo"
    ∷ lit "jp"
    ∷ lit "jpe"
    ∷ lit "jpo"
    ∷ lit "js"
    ∷ lit "jz"
    ∷ lit "call"
    ∷ []
