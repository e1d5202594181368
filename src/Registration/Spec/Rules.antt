-- ===== src/Registration/Spec/Rules.antt =====
-- The values that the offer of buildProviderSpec names: options, defaults and dependencies.
use mathlib.Core.Logic.{ite}
use provider_operator_exampl.Registration.Types.{
  Plans, ProvisioningParameter, ConditionalData, FieldDependency, Choice,
}
use provider_operator_exampl.Registration.Spec.{build_provider_spec}
use provider_operator_exampl.Api.{ParameterType, ParameterType-discrete}
use provider_operator_exampl.Base.{arith, ◌⊎◌, ◌++◌, All, [], ◌∷◌, String, ◌≡◌, List}

abbrev pub Has : String → List String → Type 0
Has x [] = ⊥
Has x (y ∷ ys) = (x ≡ y) ⊎ Has x ys

abbrev pub values : List Choice → List String
values [] = []
values (c ∷ cs) = c.value ∷ values cs

abbrev pub all_values : List ConditionalData → List String
all_values [] = []
all_values (d ∷ ds) = values d.options ++ all_values ds

-- The values that are on offer for a parameter.
unfoldable pub offered : ParameterType → List (ParameterType × ProvisioningParameter) → List String
offered key [] = []
offered key ((k, p) ∷ parameters) =
    ite (ParameterType-discrete k key) (all_values p.conditional_data) (offered key parameters)

abbrev pub HasDefault : ConditionalData → Type 0
HasDefault d = (d.options ≡ []) ⊎ Has d.default_value (values d.options)

-- Each default is one of the options, where there are options; and each value that something
-- depends on is on offer for its parameter.
abbrev pub IsConsistent : List (ParameterType × ProvisioningParameter) → ConditionalData → Type 0
IsConsistent parameters d =
    HasDefault d
    × All (λ (f : FieldDependency). Has f.value (offered f.field parameters)) d.dependencies

-- In the offer each default value is one of its options, where there are options, and each value
-- that an entry depends on is on offer for the parameter that it is a value of.
pub build_provider_spec-IsConsistent :
    (plans : Plans) (regions nodes : ProvisioningParameter)
    → All
        (λ (entry : ParameterType × ProvisioningParameter).
          All
            (IsConsistent (build_provider_spec plans regions nodes).provisioning_parameters)
            entry.1.conditional_data)
        (build_provider_spec plans regions nodes).provisioning_parameters
unfolding build_provider_spec offered ParameterType-discrete
build_provider_spec-IsConsistent plans regions nodes = ground arith
