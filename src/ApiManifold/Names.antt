-- ===== src/ApiManifold/Names.antt =====
-- `Tartarus_Malware_API_List` of src/api_manifold.c.
use tartarus_hobby_os.Base.{ℕ, List, [], ◌∷◌, codes}

abbrev pub api_list : List (List ℕ)
api_list =
    codes "AdjustTokenPrivileges"
    ∷ codes "CloseHandle"
    ∷ codes "CreateFileA"
    ∷ codes "CreateFileW"
    ∷ codes "CreateMutexA"
    ∷ codes "CreateProcessA"
    ∷ codes "CreateRemoteThread"
    ∷ codes "CreateThread"
    ∷ codes "CreateToolhelp32Snapshot"
    ∷ codes "CryptAcquireContextA"
    ∷ codes "DeviceIoControl"
    ∷ codes "ExitProcess"
    ∷ codes "FindWindowA"
    ∷ codes "FreeLibrary"
    ∷ codes "GetCommandLineA"
    ∷ codes "GetCurrentProcess"
    ∷ codes "GetModuleHandleA"
    ∷ codes "GetProcAddress"
    ∷ codes "GetSystemDirectoryA"
    ∷ codes "GetTickCount"
    ∷ codes "GetWindowThreadProcessId"
    ∷ codes "InternetCloseHandle"
    ∷ codes "InternetOpenA"
    ∷ codes "InternetOpenUrlA"
    ∷ codes "InternetReadFile"
    ∷ codes "IsDebuggerPresent"
    ∷ codes "LdrGetProcedureAddress"
    ∷ codes "LdrLoadDll"
    ∷ codes "LoadLibraryA"
    ∷ codes "LoadLibraryExA"
    ∷ codes "LoadResource"
    ∷ codes "LockResource"
    ∷ codes "MapViewOfFile"
    ∷ codes "Module32First"
    ∷ codes "Module32Next"
    ∷ codes "NtAllocateVirtualMemory"
    ∷ codes "NtProtectVirtualMemory"
    ∷ codes "NtQueryInformationProcess"
    ∷ codes "NtUnmapViewOfSection"
    ∷ codes "NtWriteVirtualMemory"
    ∷ codes "OpenProcess"
    ∷ codes "OpenProcessToken"
    ∷ codes "OutputDebugStringA"
    ∷ codes "Process32First"
    ∷ codes "Process32Next"
    ∷ codes "ReadProcessMemory"
    ∷ codes "RegCloseKey"
    ∷ codes "RegOpenKeyExA"
    ∷ codes "RegQueryValueExA"
    ∷ codes "RegSetValueExA"
    ∷ codes "ResumeThread"
    ∷ codes "RtlDecompressBuffer"
    ∷ codes "SetFilePointer"
    ∷ codes "SetUnhandledExceptionFilter"
    ∷ codes "SetWindowsHookExA"
    ∷ codes "Sleep"
    ∷ codes "TerminateProcess"
    ∷ codes "URLDownloadToFileA"
    ∷ codes "VirtualAlloc"
    ∷ codes "VirtualAllocEx"
    ∷ codes "VirtualFree"
    ∷ codes "VirtualProtect"
    ∷ codes "VirtualProtectEx"
    ∷ codes "WaitForSingleObject"
    ∷ codes "WriteFile"
    ∷ codes "WriteProcessMemory"
    ∷ codes "lstrcmpA"
    ∷ codes "lstrcmpiA"
    ∷ codes "lstrcpyA"
    ∷ codes "lstrlenA"
    ∷ []

-- `API_COUNT`.
abbrev pub api_count : ℕ
api_count = 70
