-- ===== src/Tests/Assemble.antt =====
-- A source with a constant and a label, assembled and run.
use Prim.Native.Char.{code}
use unc_coin.Prelude.{String, ◌==◌, ◌≡◌, refl, Bool, true, false, some, List, [], ◌∷◌}
use unc_coin.Prelude.Int.{pos}
use unc_coin.Text.{append}
use unc_coin.Value.{int, text}
use unc_coin.Externals.{Externals}
use unc_coin.Uvm.Run.{Ending, execute_program}
use unc_coin.Assembler.Base.{good, AssemblyResult}
use unc_coin.Assembler.Source.{assemble_source, program_value}
use unc_coin.Assembler.Ends.{Ends}
use unc_coin.Assembler.Total.{assemble_source-Ends}
use unc_coin.Assembler.Typed.{IsAssembled, assemble_source-IsAssembled}
use unc_coin.Assembler.Reading.{assemble_source-validate}
use unc_coin.Assembler.Runs.{ending_of_run, assemble_source-runs}
use unc_coin.Tests.{externals, context}

-- The words between blanks.
abbrev add_char : Bool → String → List String → List String
add_char true c ws = "" ∷ ws
add_char false c [] = c ∷ []
add_char false c (w ∷ ws) = append c w ∷ ws

unfoldable words : String → List String
words String.[] = "" ∷ []
words (String.◌∷◌ c s) = add_char (code c == 32) (String.◌∷◌ c String.[]) (words s)

abbrev reader : Externals
unfolding words
reader = record externals { shlex_split = λ s. some (words s) }

abbrev source : String
source = "start: PUSH @five  # a comment\n.const five 5\n STORE paid\njump start\nHALT"

abbrev assembled : AssemblyResult
assembled = record {
  program =
      ("PUSH", int (pos 5) ∷ [])
      ∷ ("STORE", text "paid" ∷ [])
      ∷ ("JUMP", int (pos 0) ∷ [])
      ∷ ("HALT", [])
      ∷ [];
  metadata = [];
  labels = ("start", 0) ∷ [];
  constants = ("five", int (pos 5)) ∷ [];
  source_map =
      record { instruction_index = 0; line = 1; source = "start: PUSH @five  # a comment" }
      ∷ record { instruction_index = 1; line = 3; source = " STORE paid" }
      ∷ record { instruction_index = 2; line = 4; source = "jump start" }
      ∷ record { instruction_index = 3; line = 5; source = "HALT" }
      ∷ [];
}

assemble : assemble_source reader true source ≡ good assembled
unfolding assemble_source words
assemble = refl

assemble_source-Ends_example : Ends (assemble_source reader true source)
assemble_source-Ends_example = assemble_source-Ends reader true source

assemble_source-validate_example :
    assemble_source reader true source ≡ assemble_source reader false source
assemble_source-validate_example = assemble_source-validate reader source

assemble_source-IsAssembled_example : IsAssembled assembled
assemble_source-IsAssembled_example = assemble_source-IsAssembled reader true source assemble

assemble_source-runs_example :
    (e : Ending) × (execute_program reader (program_value assembled.program) context ≡ some e)
    × (ending_of_run e ≡ true)
assemble_source-runs_example = assemble_source-runs reader true source context assemble
