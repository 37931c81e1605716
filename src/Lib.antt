-- ===== src/Lib.antt =====
-- kubeport: a verification library for the port-forwarding supervisor of this repository.
--
-- The program reads a configuration (pkg/config), validates it, and hands it to a manager
-- (internal/proxy/manager.go) that keeps one forward per service, expands multi-port services into
-- child forwards once the Kubernetes API has answered, and publishes the addresses under which the
-- forwards are reached. Other instances may own some of the services (internal/proxy/external.go). A
-- SOCKS5 server (pkg/proxy/socks.go) lets a client reach the forwards by their names in the cluster; a
-- client library (pkg/proxy/client.go) translates those names, and its clients share a registry. A
-- daemon (internal/daemon/server.go) serves requests on the manager and can write what they change back
-- to the configuration; a second instance hands the services that clash to the first
-- (internal/cli/cmd_start.go). The command line (internal/cli/cli.go) builds the configuration from a
-- file and from flags, and can replace the program by a verified release (internal/update).
--
-- Files and what they model:
--   Config.antt              the records of pkg/config/config.go, with the methods on one record
--   Config/Network, Chaos    NetworkConfig.Parse, ResolveNetwork, parseBandwidth; ChaosConfig.Parse,
--                            ResolveChaos
--   Config/Validate          ValidateService, Config.Validate, validateHook, SupervisorConfig.validate
--   Config/Keyed, Merge      mergeServices and mergeHooks over one list merge; mergeConfigs,
--                            mergeSupervisor, ResolveConnectionMode of pkg/config/merge.go
--   Config/PortsField        PortsConfig.UnmarshalYAML, parsePortsFromRaw and MarshalYAML
--   Config/Toml              marshalTOML and unmarshalTOML with their records
--   Config/Edit              AddService, RemoveService, LoadForEdit, SaveTo, NewInMemory and Init
--   Config/Paths             CentralDir, Discover and the paths of the runtime files
--   Config/Load              loadRaw, loadWithInheritance, Load, resolveExtendsPath and the migration
--                            of event names
--   Manager.antt             reserveForward, removeSingle, doRemove and the add command of Start's
--                            event loop
--   Manager/Expand           superviseMulti after the resolution of ports
--   Manager/Commands         Start up to its event loop, AddService, Apply, SetExternalForwards,
--                            ReleaseBySource, Reload
--   Manager/Mappings, Chaos  Mappings; UpdateChaos, ResetChaos, resolveChaosTargets
--   Manager/Status           Status and Stop
--   Manager/Steps            the manager as a state machine of commands and late resolutions
--   Ports.antt               resolveServicePorts, resolvePodPorts, buildPortMaps, computeLocalPort
--   Pods.antt                resolvePod of internal/proxy/manager.go, with isPodReady, resolveNamedPort
--   External.antt            DetectExternalConflicts
--   Socks.antt               handleConn up to the relay, negotiate, negotiateUserPass, readRequest
--   Addresses.antt           resolveAddr of pkg/proxy/client.go, the registry of
--                            pkg/proxy/global_resolver.go and the clients that share it
--   Hook.antt, Hook/Build    the event types, Register and Fire of internal/hook/hook.go, the shell hook
--                            and BuildFromConfig of internal/hook/build.go
--   Hook/Template, Runners   the templates, the exec hook and the webhook of internal/hook
--   Instances.antt           the registry of running instances of internal/registry/registry.go
--   Supervise.antt           superviseSingle of internal/proxy/manager.go as steps, ParsedSupervisor
--   Attempt.antt             runPortForward of internal/proxy/manager.go; the start and the supervision
--                            of an isolated forward of internal/proxy/isolated.go
--   Attempt/PodEvents        drain of internal/proxy/pod_watcher.go and handlePodEvents of manager.go
--   Daemon.antt              the requests of internal/daemon/server.go, over the manager and the files
--   Daemon/Convert           the conversions of internal/daemon/convert.go
--   Daemon/ChaosParams       chaosParamsFromProto and ChaosPresets
--   GrpcAuth.antt            the two interceptors of pkg/grpcauth/interceptor.go
--   Handoff.antt             buildConflictReport, serviceConfigToProto, allForwardsReady and the loop
--                            that hands services over, of internal/cli/cmd_start.go
--   HttpProxy.antt           one connection of the HTTP proxy of pkg/proxy/httpproxy.go
--   Cli.antt                 parseArgs of internal/cli/cli.go
--   Cli/ServiceFlag          parseSvcFlag and parseCLIServices
--   Cli/LoadConfig           loadConfig and buildConfigFromCLI
--   Cli/Add                  cmdAdd of internal/cli/cmd_add.go up to its request
--   Cli/Chaos                the requests of the commands of internal/cli/cmd_chaos.go
--   Update.antt              CheckUpdate and DownloadAndVerify of internal/update/update.go
--   Update/Github            the provider of internal/update/github.go
--   Update/Apply             doUpdateApply, extractBinary, replaceBinary of internal/cli/cmd_update.go
--   Prelude, Samples         shared types, helpers and test data; the Tests modules hold examples
--
-- How the code is read. A Go int is an integer; where a sum can leave 64 bits it is wrapped. A float64
-- is an exact dyadic number, an infinity or NaN. A Go map is an association list with insertion and
-- deletion by key. An error is a value of a data type, without its text. Commands reach the manager's
-- event loop one at a time, so an operation is a function of the whole state and the locks do not
-- appear; supervisors and resolutions that run beside the loop are further steps that can come at any
-- time. A connection is the list of bytes that will arrive, the bytes written and whether writing
-- works; a byte is a natural number, and the theorems hold in particular for those below 256.
--
-- The functions of Go's standard library that the code calls on texts, paths and numbers, the encoding
-- and decoding of files, JSON, HTTP and archives, the paths of the system, the dialling of a target, the
-- answers of the Kubernetes API and the outcome of a hook's command are arguments of the definitions
-- that use them. So is which call of the operating system fails, wherever the code looks at it.
--
-- Fuel. The chain of parents (load_chain) recurses on fuel; the files that decode bound it.
--
-- Not modelled: the lazy listener and the copying of data, the streams that simulate a bad network,
-- listening and TLS, the commands that only talk to the daemon and print, and the code that protoc
-- generates. Most of that is I/O around third-party libraries; the lazy listener and the
-- simulating streams depend on timers and on bytes that two goroutines copy at the same time.
pub mod Prelude
pub mod Config
pub mod Manager
pub mod Ports
pub mod External
pub mod Socks
pub mod Addresses
pub mod Hook
pub mod Instances
pub mod Cli
pub mod Daemon
pub mod GrpcAuth
pub mod HttpProxy
pub mod Handoff
pub mod Supervise
pub mod Attempt
pub mod Pods
pub mod Update
pub mod Samples
