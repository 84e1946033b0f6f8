-- ===== src/Lib.antt =====
-- puya-sol compiles Solidity to AWST, the input of the puya backend for the AVM. The compiler reads
-- the AST of solc, builds AWST nodes (src/awst), most of them under src/builder, and writes them as
-- JSON (src/json); the command line (src/cli) looks after the files of the backend. This library
-- models the AWST layer, its serialiser, and the parts of the builder and of the command line that
-- stand on it.
--
-- The parts, and where each is modelled:
--   * Awst/WType: the types of AWST (src/awst/WType.h, src/awst/WType.cpp): the classes are
--     constructors, `name`, `kind` and `immutable` are what the constructors of the classes set, and
--     `Awst/WType/Equivalence` is structurallyEquivalent with its set of visited pairs. Where the
--     source compares pointers, the model compares addresses; `Memory` says what stands at an
--     address, and `canon` is the content of a type with its addresses taken out.
--   * Awst/Location, Awst/Operators, Awst/Expr, Awst/Stmt: the node classes of src/awst/Node.h.
--   * Awst/Visit: visitExpressions (src/awst/Visit.cpp), with a visitor that changes a state.
--   * Awst/Termination: statementAlwaysTerminates, blockAlwaysTerminates and removeDeadCode
--     (src/awst/Termination.hpp), against a big-step semantics of statements
--     (Awst/Termination/Semantics), in which the evaluation of expressions is a parameter.
--   * Awst/Returns: forEachReturnStatement (src/awst/StatementWalk.h).
--   * Awst/Session: what the factories change: nextSingleEvalId, NameGen (src/awst/NameGen.h), the
--     errors logged.
--   * Awst/Make: the factories of src/awst/Node.h for constants, operations, bytes,
--     casts and writable targets.
--   * Awst/Program: the parts of a contract and the root nodes (src/awst/Node.h).
--   * Awst/Roots: validateAwstRoots (src/builder/SubroutineRegistry.hpp), which visits the bodies with
--     Awst/Visit.
--   * ScratchLayout: the scratch slots of a compilation (src/builder/ScratchLayout.h).
--   * SolTypes: SolIntType and the numeric part of TypeCoercion (src/builder/sol-types).
--   * Avm: the big-endian digits, decimal texts, and the machine over which expressions are evaluated:
--     `Avm` lists the documented behaviour of the opcodes that the builders emit, and Avm/Reference is
--     an evaluator that has it.
--   * Assembly: the opcodes of inline assembly that compute on words (src/builder/assembly):
--     ensureBiguint, wrapMod256 and safeDivMod in Assembly/Words, checkArity in Assembly/Arguments,
--     the handlers of ArithmeticOps.cpp, SignedOps.cpp and BitwiseShiftOps.cpp in
--     Assembly/Arithmetic, Assembly/Signed and Assembly/Shift, their table in Assembly/Opcodes,
--     and the folding of exp in Assembly/Exp.
--     Assembly/Evm describes what the EVM computes; the modules below it compare, and
--     Assembly/Evm/Refinement puts the opcodes together.
--   * Storage/SlotWord: SlotWordCodec (src/builder/storage/SlotWordCodec.cpp).
--   * Storage/Layout: StorageLayout (src/builder/storage/StorageLayout.cpp).
--   * Json/Base85: the base85 text of byte payloads (src/json/Base85.hpp).
--   * Json/Value: the values of nlohmann::ordered_json, an object as the list of its members in the order
--     in which they were assigned; `none` stands for following a null pointer.
--   * Json/Serializer: AWSTSerializer (src/json/AWSTSerializer.cpp): the texts of enumerators and node
--     types in Texts, serializeWType and serializeSourceLocation in Types, the value of an
--     IntegerConstant in Integer, serializeExpression in Parts and Nodes, serializeStatement and
--     serializeBlock in Statements, the root nodes and what they hold in Roots. The assignments of a
--     node stand in the order of the source.
--   * Cli: the passes behind the builder (src/cli/AwstPostPasses.cpp): applyInlineOverrides in
--     Overrides, the names of the targets and the removal of stale files in Targets, the pages of a
--     child's programs in Templates. What the file system answers is a parameter.
--   * EvmFeaturePolicy: what differs from the EVM on the AVM, and the line that is logged for it
--     (src/builder/EvmFeaturePolicy.h, src/builder/EvmFeaturePolicy.cpp), for a profile of
--     src/builder/TargetProfile.h.
--   * Examples: sample types, bodies and payloads, on which the theorems are applied.
--
-- How they interact: the coercions, the codec and the opcodes build expressions with the factories,
-- in the monad `Build` that passes the session on; the termination test decides what the pruning
-- removes, and the walkers share the child blocks of a statement. The serialiser reads the whole
-- tree: its documents of types are held against structurallyEquivalent, and its base85 text is that
-- of Json/Base85. The roots that validateAwstRoots checks are those that the overrides change and
-- that the serialiser writes.
--
-- Bounds and fuel: `to_string` (Prelude/Text) runs on fuel; its `n + 1` rounds are more than `n`
-- has digits; so does the loop of exp, whose exponent is more than the rounds that its halves need,
-- and the division by ten of the serialiser, whose number plus one is more than its decimal digits.
-- The evaluator of Avm/Reference writes numbers of at most 64 bytes, the limit of the AVM. All else
-- is structural recursion. The type graph is a tree: the source builds every type from types that
-- exist, and the set of visited pairs only saves work there. Integers are unbounded naturals or
-- integers except for the 32-bit accumulator of the base85 text, which loses what is shifted out,
-- and for the 32-bit and 256-bit numbers of a storage layout, the lengths of the slot codec and the
-- shifts of pow2NAndHalf; a std::string is a text in UTF-8; the ids and counters of a session,
-- each an `int`, are far from their limit.
--
-- Not modelled: the AST of libsolidity and everything that walks it (src/builder/sol-ast,
-- src/builder/sol-eb, src/builder/contract, and in src/builder/assembly memory, calldata, storage
-- slots, the statements and functions of Yul), the printing of JSON, the options of the command
-- line, the records of artifacts and their files, and the backend's process. What solc says of a type is
-- the parameter `Solc` of SolTypes/IntType.
pub mod Prelude
pub mod EvmFeaturePolicy
pub mod ScratchLayout
pub mod Awst
pub mod SolTypes
pub mod Avm
pub mod Assembly
pub mod Storage
pub mod Json
pub mod Cli
pub mod Examples
