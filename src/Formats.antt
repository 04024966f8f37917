-- ===== src/Formats.antt =====
-- ahp/adapters: the registry of session formats and game modes.
pub mod Shape
pub mod Sound
pub mod Foundational
mod Philosophical
mod Inquiry
mod Structural
mod Sessions
unfoldable pub use Foundational.{
  information_exchange, persuasion, negotiation, rogerian, deliberative, narrative, phatic,
  motivational, invitational,
}
unfoldable pub use Philosophical.{
  dialectical, hermeneutic, deconstructive, rhizomatic, polyphonic, coordinative,
}
unfoldable pub use Inquiry.{socratic, pragmatist, agonistic, levinasian, toulmin}
unfoldable pub use Structural.{directive, co_creative, pedagogical, mediation}
unfoldable pub use Sessions.{
  debate, interview_me, interview_yall, interview_eachother, collaborate_joint, collaborate_role,
  collaborate_brainstorm, converse_free, converse_socratic, converse_devils, fiction_theatre,
  fiction_authors, deliberate, teach, estimate, interrogate,
}
use agent_handshake_protocol.Prelude.{String, Option, none, some, List, [], ◌∷◌, ◌++◌, map}
use agent_handshake_protocol.Prelude.Dict.{Dict, lookup}
use Shape.{Format}

-- the formats of the literal in FORMATS
unfoldable pub session_formats : List Format
unfolding debate interview_me interview_yall interview_eachother collaborate_joint collaborate_role
    collaborate_brainstorm converse_free converse_socratic converse_devils fiction_theatre
    fiction_authors deliberate teach estimate interrogate
session_formats =
    debate ∷ interview_me ∷ interview_yall ∷ interview_eachother ∷ collaborate_joint
    ∷ collaborate_role ∷ collaborate_brainstorm ∷ converse_free ∷ converse_socratic
    ∷ converse_devils ∷ fiction_theatre ∷ fiction_authors ∷ deliberate ∷ teach ∷ estimate
    ∷ interrogate ∷ []

-- GAME_MODE_FORMATS
unfoldable pub game_mode_formats : List Format
unfolding information_exchange persuasion negotiation rogerian deliberative narrative phatic
    motivational invitational dialectical hermeneutic deconstructive rhizomatic polyphonic
    coordinative socratic pragmatist agonistic levinasian toulmin directive co_creative pedagogical
    mediation
game_mode_formats =
    information_exchange ∷ persuasion ∷ negotiation ∷ rogerian ∷ deliberative ∷ narrative ∷ phatic
    ∷ motivational ∷ invitational ∷ dialectical ∷ hermeneutic ∷ deconstructive ∷ rhizomatic
    ∷ polyphonic ∷ coordinative ∷ socratic ∷ pragmatist ∷ agonistic ∷ levinasian ∷ toulmin
    ∷ directive ∷ co_creative ∷ pedagogical ∷ mediation ∷ []

abbrev by_name : Format → String × Format
by_name f = (f.name, f)

-- FORMATS, after the registration of the game modes
unfoldable pub formats : Dict Format
unfolding session_formats game_mode_formats
formats = map by_name (session_formats ++ game_mode_formats)

-- `get_format`; `none` is the FormatNotFoundError
unfoldable pub get_format : String → Option Format
unfolding formats lookup
get_format name = lookup name formats
